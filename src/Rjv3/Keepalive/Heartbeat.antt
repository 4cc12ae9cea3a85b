-- ===== src/Rjv3/Keepalive/Heartbeat.antt =====
-- The heartbeat frame of packet_plugin_rjv3_keepalive.c, byte for byte.
use minieap.Prelude.{[], ◌∷◌, ◌++◌, replicate, Bytes}
use minieap.Rjv3.Keepalive.{Keepalive}

-- A frame of 45 bytes in front of which stand the addresses, and whose EAPOL length is 30.
abbrev pub keepalive_packet : (dst src content : Bytes) → Bytes
keepalive_packet dst src content =
    (dst ++ (src ++ 0x88 ∷ 0x8e ∷ 1 ∷ 0xbf ∷ [])) ++ (0 ∷ 30 ∷ content)

zeros : Bytes
zeros = replicate 100 0
