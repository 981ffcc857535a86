-- ===== src/Server/Start.antt =====
-- Which port and which resources the server of src/main.c starts with.
use sighttpd.Prelude.{
  ℕ, ◌<◌, ◌≡◌, ◌≢◌, ◌^◌, ◌∙◌, refl, sym, ap, Text, false, Option, some, List, [], ◌∷◌, ◌++◌, arith,
  codes, decimal, AreDigits, decimal_nonempty, decimal-AreDigits, atoi-decimal, atoi, length,
  length-append, if◌then◌else◌, ◌||◌,
}
use sighttpd.Dictionary.{Dictionary, dictionary_hash, dictionary_lookup}
use sighttpd.Dictionary.Lookup.{IsPlaced, dictionary_lookup-dictionary_insert}
use sighttpd.Resource.{Resource, statictext_resources, status_resource, flim_resource}
use sighttpd.Config.{Cfg, server_resources}
use sighttpd.Config.Read.{cfg_read}
use sighttpd.Server.{
  Sighttpd, Opt, Options, read_options, exits, serves, listen_on, port_of, nr_resources, sin_port,
  with_port, with_portname, sighttpd_init, or_exit, use_cfg, shown, use_options, main,
}

-- The port asked for: the argument behind the options, else the one of the configuration.
abbrev pub asked : (rest : List Text) → Option Text → Option Text
asked [] listen = listen
asked (port ∷ rest) listen = some port

-- A port that is written in decimal is that port, without a look at the services.
port_of-digits :
    (getservbyname : Text → Option ℕ) (t : Text)
    → AreDigits t
    → t ≢ []
    → port_of getservbyname t ≡ some (atoi t)
unfolding port_of
port_of-digits getservbyname [] h k = absurd (k refl)
port_of-digits getservbyname (c ∷ t) (e, h) k = rw e refl

-- The status page tells of as many resources as there are.
pub length-server_resources :
    (jenkins_hash : Text → ℕ) (version : Text) (active : ℕ) (uiomux kongou : Resource) (cfg : Cfg)
    → length (server_resources jenkins_hash version active uiomux kongou cfg)
      ≡ nr_resources jenkins_hash cfg
unfolding server_resources nr_resources
length-server_resources jenkins_hash version active uiomux kongou cfg =
    let built_in = status_resource version active ∷ flim_resource ∷ uiomux ∷ kongou ∷ [] in
    omega (
      arith,
      length-append (cfg.resources ++ built_in) (statictext_resources jenkins_hash cfg.dictionary),
      length-append cfg.resources built_in,
    )

-- What `main` starts with.
abbrev pub initial : Options
initial = record {
  config_filename = codes "/etc/sighttpd/sighttpd.conf";
  show_version = false;
  show_help = false;
}

module _ (jenkins_hash : Text → ℕ) (getservbyname : Text → Option ℕ) (version : Text)
    (uiomux kongou : Resource) (image : Text) where
  lookup-listen_on :
      (rest : List Text) (cfg : Cfg)
      → IsPlaced image
          (codes "Listen")
          (cfg.dictionary (dictionary_hash jenkins_hash (codes "Listen")))
      → dictionary_lookup jenkins_hash
          (listen_on jenkins_hash image rest cfg).dictionary
          (codes "Listen")
        ≡ asked rest (dictionary_lookup jenkins_hash cfg.dictionary (codes "Listen"))
  unfolding listen_on
  lookup-listen_on [] cfg h = refl
  lookup-listen_on (port ∷ rest) cfg h =
      dictionary_lookup-dictionary_insert jenkins_hash image cfg.dictionary (codes "Listen")
        (some port) h

  sighttpd_init-port :
      (cfg : Cfg) (p : ℕ)
      → p < 2 ^ 16
      → dictionary_lookup jenkins_hash cfg.dictionary (codes "Listen") ≡ some (decimal p)
      → sighttpd_init jenkins_hash getservbyname version uiomux kongou cfg
        ≡ some (record {
          port = p;
          resources =
              server_resources jenkins_hash version
                (nr_resources jenkins_hash cfg)
                uiomux
                kongou
                cfg;
        })
  unfolding sighttpd_init with_portname with_port
  sighttpd_init-port cfg p h e =
      ap (with_portname jenkins_hash getservbyname version uiomux kongou cfg) e
      ∙ ap (with_port jenkins_hash getservbyname version uiomux kongou cfg) (
          port_of-digits getservbyname (decimal p) (decimal-AreDigits p)
            (decimal_nonempty p (omega arith))
          ∙ ap (λ n. some n) (atoi-decimal p (omega arith)))

  -- Options that only name a configuration, which can be read, and a port below 65536 in decimal, as the
  -- argument behind the options or else as `Listen` of the configuration: `main` comes to the socket with
  -- that port and with the resources of the configuration, the four that are built in and those of the
  -- assignments outside of blocks, as many as the status page tells of. For an argument the new
  -- variable must have its place among the names of the dictionary.
  pub main-serves :
      (fdstream_resources : Dictionary → List Resource) (images : ℕ → Text)
      (open_file : Text → Option (List Text)) (progname bugreport : Text) (fuel : ℕ)
      (opts : List Opt) (options : Options) (cfg : Cfg) (rest : List Text) (p : ℕ)
      → read_options opts initial ≡ some options
      → options.show_version ≡ false
      → options.show_help ≡ false
      → cfg_read jenkins_hash fdstream_resources images fuel (open_file options.config_filename)
        ≡ some (some cfg)
      → IsPlaced image
          (codes "Listen")
          (cfg.dictionary (dictionary_hash jenkins_hash (codes "Listen")))
      → asked rest (dictionary_lookup jenkins_hash cfg.dictionary (codes "Listen"))
        ≡ some (decimal p)
      → p < 2 ^ 16
      → (s : Sighttpd) × (main jenkins_hash getservbyname version uiomux kongou fdstream_resources
            images open_file progname bugreport fuel image opts rest
          ≡ serves s)
        × (sin_port s ≡ p)
        × (s.resources
            ≡ server_resources jenkins_hash version
                (length s.resources)
                uiomux
                kongou
                (listen_on jenkins_hash image rest cfg))
  unfolding main use_options use_cfg or_exit sin_port
  main-serves fdstream_resources images open_file progname bugreport fuel opts options cfg rest p o
        v h c placed port small =
      let cfg' = listen_on jenkins_hash image rest cfg in
      let n = nr_resources jenkins_hash cfg' in
      let list = server_resources jenkins_hash version n uiomux kongou cfg' in
      let count = length-server_resources jenkins_hash version n uiomux kongou cfg' in
      (
        record { port = p; resources = list },
        ap
              (use_options jenkins_hash getservbyname version uiomux kongou fdstream_resources
                images open_file progname bugreport fuel image rest)
              o
            ∙ (ap
                  (λ b.
                    if b
                    then exits 0 (shown version progname bugreport options)
                    else use_cfg jenkins_hash getservbyname version uiomux kongou image rest (
                        cfg_read jenkins_hash fdstream_resources images fuel
                          (open_file options.config_filename)))
                  {x = options.show_version || options.show_help} {y = false} (ground arith)
                ∙ (ap (use_cfg jenkins_hash getservbyname version uiomux kongou image rest) c
                    ∙ ap or_exit (
                        sighttpd_init-port cfg' p small
                          (lookup-listen_on rest cfg placed ∙ port)))),
        omega arith,
        ap (λ k. server_resources jenkins_hash version k uiomux kongou cfg') (sym count),
      )
