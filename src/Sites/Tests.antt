-- ===== src/Sites/Tests.antt =====
-- Two sites, and an RTP header.
use xyz.Prelude.{◌≡◌, refl, true, List, [], ◌∷◌}
use xyz.Sites.{Site, RtpHdr, find_tunnel_ip, is_rtp_hdr}

abbrev two_sites : List Site
two_sites =
    record { valid = 1; number = 3; local_asl = record { ip = 0x0a000000; mask = 0xff000000 } ∷ [] }
    ∷ (record {
      valid = 1;
      number = 4;
      local_asl = record { ip = 0x0b000000; mask = 0xff000000 } ∷ [];
    }
        ∷ [])

find_second : find_tunnel_ip 3 two_sites 0x0b010203 ≡ 1
unfolding find_tunnel_ip
find_second = refl

abbrev voice : RtpHdr
voice = record { version = 2; pt = 0x12; cc = 0 }

voice_accepted : is_rtp_hdr 20000 20002 60 12 voice ≡ true
unfolding is_rtp_hdr
voice_accepted = refl
