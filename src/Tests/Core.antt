-- ===== src/Tests/Core.antt =====
-- The destinations of crates/core/src/lib.rs.
use sshflow.Prelude.{
  ◌≡◌, ◌≢◌, refl, false, [], none, some, codes, ok, is_ok, length, starts_with_char, split_once,
  rsplit_once, parse_uint, decimal, arith,
}
use sshflow.Core.HostTarget.{HostTarget, parse, key, display, destination_string, dash}
use sshflow.Core.HostTarget.Parse.{parse_no_option}
use sshflow.Core.HostTarget.Keys.{parse-key}
use sshflow.Core.HostTarget.RoundTrip.{IsPrintable, parse-display, display_no_brackets}
use sshflow.Core.HostTarget.Fingerprint.{socket_fingerprint}
use sshflow.Tests.System.{deploy}

pub parses_user_host_port : parse (codes "deploy@10.0.0.4:2222") ≡ ok deploy
unfolding parse split_once rsplit_once parse_uint
parses_user_host_port = refl

rejects_leading_dash : is_ok (parse (codes "user@-oProxyCommand=evil")) ≡ false
unfolding parse split_once rsplit_once parse_uint
rejects_leading_dash = refl

-- An empty host passes in brackets, and what stands behind the bracket is dropped.
accepts_empty_host : parse (codes "[]:22") ≡ ok (record { user = none; host = []; port = some 22 })
unfolding parse split_once rsplit_once parse_uint
accepts_empty_host = refl

drops_behind_bracket :
    parse (codes "[::1]x") ≡ ok (record { user = none; host = codes "::1"; port = none })
unfolding parse split_once rsplit_once parse_uint
drops_behind_bracket = refl

key_of_deploy : key deploy ≡ codes "deploy@10.0.0.4:2222"
unfolding key decimal
key_of_deploy = refl

fingerprint_of_deploy : socket_fingerprint length deploy ≡ codes "0000000000000014"
unfolding socket_fingerprint key decimal
fingerprint_of_deploy = refl

parse_no_option_example :
    (starts_with_char dash (destination_string deploy) ≡ false)
    × (starts_with_char dash deploy.host ≡ false)
parse_no_option_example =
    parse_no_option (codes "deploy@10.0.0.4:2222") deploy parses_user_host_port

parse-key_example : deploy ≡ deploy
parse-key_example =
    parse-key (codes "deploy@10.0.0.4:2222") (codes "deploy@10.0.0.4:2222") deploy deploy
      parses_user_host_port parses_user_host_port refl

deploy-IsPrintable : IsPrintable deploy
deploy-IsPrintable = record {
  user = ((cc), omega arith, refl);
  plain = record {
    filled = refl;
    no_dash = refl;
    no_bracket = refl;
    fits = omega arith;
    no_colon = λ e. absurd (ground arith);
  };
  split = tt;
}

parse-display_example : parse (display deploy) ≡ ok deploy
parse-display_example = parse-display deploy deploy-IsPrintable

abbrev loopback : HostTarget
loopback = record { user = none; host = codes "::1"; port = none }

-- `[::1]` is displayed as `::1`, which is the host `:` with the port 1.
display_no_brackets_example :
    (parse (display loopback) ≡ ok (record { user = none; host = codes ":"; port = some 1 }))
    × (parse (display loopback) ≢ ok loopback)
unfolding decimal
display_no_brackets_example =
    display_no_brackets none (codes ":") 1 loopback tt (omega arith)
      (record {
        filled = refl;
        no_dash = refl;
        no_bracket = refl;
        fits = omega arith;
        no_colon = λ e. absurd (ground arith);
      })
      refl
