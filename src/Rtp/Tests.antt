-- ===== src/Rtp/Tests.antt =====
-- Runs of the RTP reader on small packets.
use posix_bsp_perf.Prelude.{◌≡◌, refl, none, some, [], ◌∷◌, ◌++◌, length}
use posix_bsp_perf.Rtp.{RtpHeader, parse_header, extract_payload, copy_payload}
use posix_bsp_perf.Rtp.Fields.{
  print_header, view, parse_header-print_header, copy_payload-eq-extract_payload,
}

abbrev header : RtpHeader
header = record {
  start_of_header = 128;
  payload_type = 96;
  sequence_number = 258;
  timestamp = 16909060;
  ssrc = 7;
}

header_bytes : print_header header ≡ 128 ∷ 96 ∷ 1 ∷ 2 ∷ 1 ∷ 2 ∷ 3 ∷ 4 ∷ 0 ∷ 0 ∷ 0 ∷ 7 ∷ []
unfolding print_header
header_bytes = refl

short_packet : parse_header (128 ∷ 96 ∷ []) 2 ≡ none
unfolding parse_header
short_packet = refl

parse_header-print_header_run :
    (parse_header (print_header header ++ 5 ∷ []) (length (print_header header ++ 5 ∷ []))
      ≡ some header)
    × (copy_payload (print_header header ++ 5 ∷ []) (length (print_header header ++ 5 ∷ []))
        ≡ some (5 ∷ []))
parse_header-print_header_run = parse_header-print_header header (5 ∷ [])

copy_payload-eq-extract_payload_run :
    copy_payload (1 ∷ 2 ∷ []) 2 ≡ view (1 ∷ 2 ∷ []) (extract_payload 2)
copy_payload-eq-extract_payload_run = copy_payload-eq-extract_payload (1 ∷ 2 ∷ []) 2
