-- ===== src/Examples/CommandLine.antt =====
-- The command line, read by compat/getopt.c and config.c.
use minieap.Prelude.{◌≡◌, refl, true, List, [], ◌∷◌, some, none, arith, map, Bytes, codes}
use minieap.Conf.{strchr}
use minieap.Getopt.{Getopt, find_longopt}
use minieap.Getopt.Calls.{Found, getopts}
use minieap.Getopt.Progress.{getopts-some}
use minieap.Getopt.Named.{args, found_for, getopts-args}
use minieap.Config.{Settings}
use minieap.Config.CommandLine.{short_opts, long_opts, parse_cmdline_opts}
use minieap.Config.Modules.{parse_cmdline_opts-modules}
use minieap.Examples.Configuration.{settings}

abbrev first_call : Getopt
first_call = record { optarg = none; optind = 1; opterr = true; optopt = 0; optcursor = none }

-- minieap -wu ann --nic=e0 -k
abbrev short_argv : List Bytes
short_argv = codes "minieap" ∷ codes "-wu" ∷ codes "ann" ∷ codes "--nic=e0" ∷ codes "-k" ∷ []

short_argv-read :
    getopts 30 short_argv short_opts long_opts first_call
    ≡ some (
        record { opt = b'w'; long_index = 0; optarg = none }
        ∷ record { opt = b'u'; long_index = 0; optarg = some (codes "ann") }
        ∷ record { opt = b'n'; long_index = 5; optarg = some (codes "e0") }
        ∷ record { opt = b'k'; long_index = 0; optarg = none }
        ∷ [])
unfolding getopts
short_argv-read = refl

getopts-some_example :
    (all : List Found) × (getopts 30 short_argv short_opts long_opts first_call ≡ some all)
getopts-some_example = getopts-some 30 short_argv short_opts long_opts first_call (omega arith)

-- --username ann --internet-check-max-fail 4
getopts-args_example :
    getopts 3
      (codes "minieap" ∷ args long_opts ((3, codes "ann") ∷ (23, codes "4") ∷ []))
      short_opts
      long_opts
      first_call
    ≡ some (map (found_for long_opts) ((3, codes "ann") ∷ (23, codes "4") ∷ []))
unfolding find_longopt strchr
getopts-args_example =
    getopts-args (codes "minieap") short_opts long_opts ((3, codes "ann") ∷ (23, codes "4") ∷ []) 3
      first_call
      (
        record { has_name = omega arith; no_equals = refl; unique = refl; required = refl },
        (record { has_name = omega arith; no_equals = refl; unique = refl; required = refl }, tt),
      )
      refl refl (omega arith)

-- --module rjv3 --username ann --pkt-plugin printer, over a file that names another plugin.
abbrev with_modules : List Found
with_modules =
    map (found_for long_opts) ((17, codes "rjv3") ∷ (3, codes "ann") ∷ (16, codes "printer") ∷ [])

abbrev from_file : Settings
from_file = record settings { packet_plugin_list = codes "old" ∷ [] }

abbrev from_both : Settings
from_both = record settings { packet_plugin_list = codes "rjv3" ∷ codes "printer" ∷ [] }

parse_cmdline_opts-modules_example :
    from_both.packet_plugin_list ≡ codes "rjv3" ∷ codes "printer" ∷ []
unfolding parse_cmdline_opts
parse_cmdline_opts-modules_example =
    parse_cmdline_opts-modules with_modules from_file from_both refl
