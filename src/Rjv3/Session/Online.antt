-- ===== src/Rjv3/Session/Online.antt =====
-- Two authentications in a row, with the DHCP script between them.
use minieap.Prelude.{List, map}
use minieap.Frame.{EthEapFrame}
use minieap.Rjv3.Keepalive.{Link}
use minieap.Rjv3.Session.{RjCallback, Net}
use minieap.Rjv3.Session.Life.{RjEvent, received}

module _ (link : Link RjCallback) where
  abbrev pub frames : Net → List EthEapFrame → List (RjEvent × Net)
  frames net list = map (λ frame. (received frame, net)) list
