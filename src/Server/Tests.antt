-- ===== src/Server/Tests.antt =====
-- sighttpd started with a configuration file of one assignment, and a port behind it.
use sighttpd.Prelude.{
  ℕ, ◌≡◌, refl, inr, Text, Option, none, some, List, [], ◌∷◌, codes, arith, decimal, digits, length,
}
use sighttpd.Tree.{find}
use sighttpd.Dictionary.{Dictionary, dictionary_hash, dictionary_lookup, dictionary_new}
use sighttpd.Dictionary.Lookup.{IsPlaced}
use sighttpd.Resource.{Resource, flim_resource}
use sighttpd.Config.{Cfg, cfg_new, read_events, server_resources}
use sighttpd.Config.Read.{cfg_read, events_of}
use sighttpd.Copa.{refill_by, ready, next_loop}
use sighttpd.Copa.Parse.{
  copa_next, copa_peek, skip_loop, copa_skip_over, copa_parse_line, found, parse_lines,
  copa_read_fd,
}
use sighttpd.Server.{
  Sighttpd, Opt, opt_config, Options, read_options, set_config, serves, sin_port, main, listen_on,
}
use sighttpd.Server.Start.{initial, asked, main-serves}

abbrev one_hash : Text → ℕ
one_hash name = 3

abbrev no_streams : Dictionary → List Resource
no_streams d = []

abbrev no_service : Text → Option ℕ
no_service name = none

-- The file `a.conf` is empty.
abbrev files : Text → Option (List Text)
files name = some []

abbrev empty_cfg : Cfg
empty_cfg = record { dictionary = dictionary_new; block_dict = none; resources = [] }

abbrev opts : List Opt
opts = opt_config (some (codes "a.conf")) ∷ []

abbrev port : Text
port = codes "8080"

abbrev a_options : Options
a_options = record initial { config_filename = codes "a.conf" }

chosen : read_options opts initial ≡ some a_options
unfolding read_options set_config
chosen = refl

cfg_found : cfg_read one_hash no_streams (λ n. 16 ∷ []) 57 (some []) ≡ some (some empty_cfg)
unfolding cfg_read events_of cfg_new read_events refill_by ready next_loop copa_next copa_peek
    skip_loop copa_skip_over copa_parse_line found parse_lines copa_read_fd
cfg_found = refl

listen_IsPlaced :
    IsPlaced
      (16 ∷ [])
      (codes "Listen")
      (empty_cfg.dictionary (dictionary_hash one_hash (codes "Listen")))
unfolding dictionary_new find
listen_IsPlaced = inr (refl, tt)

port_decimal :
    asked (port ∷ []) (dictionary_lookup one_hash empty_cfg.dictionary (codes "Listen"))
    ≡ some (decimal 8080)
unfolding decimal digits
port_decimal = refl

main-serves_example :
    (s : Sighttpd) × (main one_hash no_service
        (codes "1")
        flim_resource
        flim_resource
        no_streams
        (λ n. 16 ∷ [])
        files
        (codes "sighttpd")
        (codes "x@y")
        57
        (16 ∷ [])
        opts
        (port ∷ [])
      ≡ serves s)
    × (sin_port s ≡ 8080)
    × (s.resources
        ≡ server_resources one_hash
            (codes "1")
            (length s.resources)
            flim_resource
            flim_resource
            (listen_on one_hash (16 ∷ []) (port ∷ []) empty_cfg))
main-serves_example =
    main-serves one_hash no_service (codes "1") flim_resource flim_resource (16 ∷ []) no_streams
      (λ n. 16 ∷ []) files (codes "sighttpd") (codes "x@y") 57 opts a_options empty_cfg (port ∷ [])
      8080 chosen refl refl cfg_found listen_IsPlaced port_decimal (omega arith)
