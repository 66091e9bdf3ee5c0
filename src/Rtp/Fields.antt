-- ===== src/Rtp/Fields.antt =====
-- Headers read back, and the two ways to the payload agree.
use posix_bsp_perf.Prelude.{
  ℕ, zero, suc, ◌-◌, ◌/◌, ◌%◌, ◌≡◌, refl, ap, sym, take_all, ◌∙◌, Option, none, some, List, [], ◌∷◌,
  ◌++◌, length, take, drop, arith,
}
use posix_bsp_perf.Rtp.{RtpHeader, RtpPayload, parse_header, extract_payload, copy_payload}

-- The bytes of a header, each number with its high byte first (RFC 3550).
unfoldable pub print_header : RtpHeader → List ℕ
print_header h =
    h.start_of_header
    ∷ h.payload_type
    ∷ (h.sequence_number / 256)
    ∷ (h.sequence_number % 256)
    ∷ (h.timestamp / 16777216)
    ∷ (h.timestamp / 65536 % 256)
    ∷ (h.timestamp / 256 % 256)
    ∷ (h.timestamp % 256)
    ∷ (h.ssrc / 16777216)
    ∷ (h.ssrc / 65536 % 256)
    ∷ (h.ssrc / 256 % 256)
    ∷ (h.ssrc % 256)
    ∷ []

-- The header that stands in front of a packet is read back from it, and the rest of the packet is its
-- payload.
pub parse_header-print_header :
    (h : RtpHeader) (payload : List ℕ)
    → (parse_header (print_header h ++ payload) (length (print_header h ++ payload)) ≡ some h)
      × (copy_payload (print_header h ++ payload) (length (print_header h ++ payload))
          ≡ some payload)
unfolding parse_header print_header copy_payload
parse_header-print_header h payload =
    (ground arith, ground (arith, take_all payload (length payload) (omega arith)))

-- What a null pointer or a pointer and a size stand for in the packet.
abbrev pub view : List ℕ → RtpPayload → Option (List ℕ)
view bytes v = elim v.offset [ none ↦ none | some at ↦ some (take v.size (drop at bytes)) ]

take-nil : (n : ℕ) → take {A = ℕ} n [] ≡ []
take-nil zero = refl
take-nil (suc n) = refl

take-drop : (a n : ℕ) (bytes : List ℕ) → drop a (take n bytes) ≡ take (n - a) (drop a bytes)
take-drop zero n bytes = let e : n ≡ n - 0 = omega arith in ap (λ m. take m bytes) e
take-drop (suc a) zero bytes =
    let e : 0 ≡ 0 - suc a = omega arith in ap (λ m. take m (drop (suc a) bytes)) e
take-drop (suc a) (suc n) [] = sym (take-nil (suc n - suc a))
take-drop (suc a) (suc n) (b ∷ bytes) =
    let e : n - a ≡ suc n - suc a = omega arith in
    take-drop a n bytes ∙ ap (λ m. take m (drop a bytes)) e

-- Both overloads of `extractPayload` find the same payload, and fail on the same packets.
pub copy_payload-eq-extract_payload :
    (bytes : List ℕ) (size : ℕ) → copy_payload bytes size ≡ view bytes (extract_payload size)
unfolding copy_payload extract_payload
copy_payload-eq-extract_payload bytes size = ground (arith, take-drop 12 size bytes)
