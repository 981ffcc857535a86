-- ===== src/Server.antt =====
-- src/main.c up to the socket, its loop over clients, and sighttpd_init of src/sighttpd.c, in a build without
-- HAVE_GETOPT_LONG, HAVE_OGGZ and HAVE_SHCODECS. What getopt(3) answers is a list, and `rest` is argv
-- from `optind` on.
pub mod Start
mod Tests
use sighttpd.Prelude.{
  ℕ, ◌+◌, ◌%◌, ◌^◌, Text, Bool, true, false, Option, none, some, List, [], ◌∷◌, ◌++◌, if◌then◌else◌,
  ◌||◌, codes, length, is_digit, atoi,
}
use sighttpd.Dictionary.{Dictionary, dictionary_lookup, dictionary_insert}
use sighttpd.Resource.{Resource, statictext_resources, newline}
use sighttpd.Config.{Cfg, server_resources}
use sighttpd.Config.Read.{cfg_read}

-- `struct sighttpd`
pub record Sighttpd : Type 0 where
  pub port : ℕ
  pub resources : List Resource

-- An answer of getopt(3): `opt_missing` is ':', `opt_other` any other character, as '?'.
pub data Opt : Type 0 where
  opt_help opt_version opt_missing opt_other : Opt
  opt_config : (optarg : Option Text) → Opt

-- What the loop over the options sets.
pub record Options : Type 0 where
  pub config_filename : Text
  pub show_version : Bool
  pub show_help : Bool

-- How it goes on: `exits` with the code and what was printed, `running` where the fuel does not end
-- the parser of the configuration, `serves` at the socket.
pub data Started : Type 0 where
  exits : (code : ℕ) (printed : Text) → Started
  running : Started
  serves : Sighttpd → Started

-- `optarg` is a null pointer as `none`.
unfoldable pub set_config : Option Text → Options → Options
set_config none options = options
set_config (some optarg) options = record options { config_filename = optarg }

-- The loop over the options; `none` is a return of 1 behind `usage`.
unfoldable pub read_options : List Opt → Options → Option Options
read_options [] options = some options
read_options (opt_help ∷ opts) options = read_options opts (record options { show_help = true })
read_options (opt_version ∷ opts) options =
    read_options opts (record options { show_version = true })
read_options (opt_config optarg ∷ opts) options = read_options opts (set_config optarg options)
read_options (opt_missing ∷ opts) options = none
read_options (opt_other ∷ opts) options = none

-- What `usage` prints; `bugreport` is PACKAGE_BUGREPORT.
unfoldable pub usage : (progname bugreport : Text) → Text
usage progname bugreport =
    codes "Usage: "
    ++ (progname
        ++ (codes " [options] <port>"
            ++ (newline
                ++ (codes "A stream ingress HTTP server."
                    ++ (newline
                        ++ (newline
                            ++ (codes "Configuration options"
                                ++ (newline
                                    ++ (codes
                                          "  -f filename       Specify configuration filename [/etc/sighttpd/sighttpd.conf]"
                                        ++ (newline
                                            ++ (newline
                                                ++ (codes "Please report bugs to <"
                                                    ++ (bugreport
                                                        ++ (codes ">" ++ newline))))))))))))))

-- `if (optind < argc) dictionary_insert (cfg->dictionary, "Listen", argv[optind])`; `image` is what
-- stands at the address of the new variable, if one is made.
unfoldable pub listen_on : (jenkins_hash : Text → ℕ) (image : Text) (rest : List Text) → Cfg → Cfg
listen_on jenkins_hash image [] cfg = cfg
listen_on jenkins_hash image (port ∷ rest) cfg = record cfg {
  dictionary = dictionary_insert jenkins_hash image cfg.dictionary (codes "Listen") (some port);
}

-- The port of `sighttpd_init` from its name; `getservbyname` gives the port of a service for "tcp".
unfoldable pub port_of : (getservbyname : Text → Option ℕ) (portname : Text) → Option ℕ
port_of getservbyname [] = getservbyname []
port_of getservbyname (c ∷ portname) =
    if is_digit c then some (atoi (c ∷ portname)) else getservbyname (c ∷ portname)

-- How many resources the status page tells of, which asks when it is read.
unfoldable pub nr_resources : (jenkins_hash : Text → ℕ) → Cfg → ℕ
nr_resources jenkins_hash cfg =
    length cfg.resources + (4 + length (statictext_resources jenkins_hash cfg.dictionary))

-- The port that connections are taken at: `htons(sighttpd->port)`.
unfoldable pub sin_port : Sighttpd → ℕ
sin_port sighttpd = sighttpd.port % 2 ^ 16

-- `exit (1)`, with what goes to standard output
unfoldable pub or_exit : Option Sighttpd → Started
or_exit none = exits 1 []
or_exit (some sighttpd) = serves sighttpd

-- The texts under `if (show_version)` and `if (show_help)`.
unfoldable pub shown : (version progname bugreport : Text) → Options → Text
shown version progname bugreport options =
    (if options.show_version then progname ++ (codes " version " ++ (version ++ newline)) else [])
    ++ (if options.show_help then usage progname bugreport else [])

module _ (jenkins_hash : Text → ℕ) (getservbyname : Text → Option ℕ) (version : Text)
    (uiomux kongou : Resource) where
  -- `sighttpd_init`, with enough memory, behind the lookup of the name of the port and of the port;
  -- `none` is a return of 1.
  unfoldable pub with_port : Cfg → Option ℕ → Option Sighttpd
  with_port cfg none = none
  with_port cfg (some port) = some (record {
    port = port;
    resources =
        server_resources jenkins_hash version (nr_resources jenkins_hash cfg) uiomux kongou cfg;
  })

  unfoldable pub with_portname : Cfg → Option Text → Option Sighttpd
  with_portname cfg none = none
  with_portname cfg (some portname) = with_port cfg (port_of getservbyname portname)

  unfoldable pub sighttpd_init : Cfg → Option Sighttpd
  sighttpd_init cfg =
      with_portname cfg (dictionary_lookup jenkins_hash cfg.dictionary (codes "Listen"))

  -- `main` from the answer of `cfg_read` on.
  unfoldable pub use_cfg : (image : Text) (rest : List Text) → Option (Option Cfg) → Started
  use_cfg image rest none = running
  use_cfg image rest (some none) = exits 1 (codes "Config file error." ++ newline)
  use_cfg image rest (some (some cfg)) =
      or_exit (sighttpd_init (listen_on jenkins_hash image rest cfg))

  module _ (fdstream_resources : Dictionary → List Resource) (images : ℕ → Text)
      (open_file : Text → Option (List Text)) (progname bugreport : Text) where
    -- `open_file` is what the reads of a file answer.
    unfoldable pub use_options :
        (fuel : ℕ) (image : Text) (rest : List Text) → Option Options → Started
    use_options fuel image rest none = exits 1 (usage progname bugreport)
    use_options fuel image rest (some options) =
        let start = use_cfg image rest (
          cfg_read jenkins_hash fdstream_resources images fuel
            (open_file options.config_filename)) in
        if options.show_version || options.show_help
        then exits 0 (shown version progname bugreport options)
        else start

    -- `main` up to the socket. getopt(3) leaves `optind` at most at `argc`.
    unfoldable pub main : (fuel : ℕ) (image : Text) (opts : List Opt) (rest : List Text) → Started
    main fuel image opts rest = use_options fuel image rest (
        read_options opts (record {
          config_filename = codes "/etc/sighttpd/sighttpd.conf";
          show_version = false;
          show_help = false;
        }))

-- `struct sighttpd_child`
pub record SighttpdChild : Type 0 where
  pub sighttpd : Sighttpd
  pub accept_fd : ℕ

-- The loop over what accept(2) answers, `none` for -1: the clients that get a thread each.
unfoldable pub accept_loop : Sighttpd → List (Option ℕ) → List SighttpdChild
accept_loop sighttpd [] = []
accept_loop sighttpd (none ∷ answers) = accept_loop sighttpd answers
accept_loop sighttpd (some ad ∷ answers) =
    record { sighttpd = sighttpd; accept_fd = ad } ∷ accept_loop sighttpd answers
