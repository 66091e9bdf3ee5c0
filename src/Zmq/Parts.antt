-- ===== src/Zmq/Parts.antt =====
-- Messages of several parts, from the publisher to the subscriber.
use posix_bsp_perf.Prelude.{
  ℕ, ◌+◌, ◌-◌, ◌≤◌, ◌<◌, ◌≡◌, refl, sym, ap, ◌∙◌, Bool, true, false, some, List, [], ◌∷◌, ◌++◌,
  append-nil, append_assoc, ltb, if_elim, length, length-append, drop, drop-add, take-append,
  drop-append, arith,
}
use posix_bsp_perf.Buffers.{Buffer}
use posix_bsp_perf.Zmq.{
  Socket, send_data, send_data_more, send_data_last, copy_at, Received, receive_rest,
  receive_data_more, receive_vector_rest, receive_vector_more,
}

-- A message is a first part and those behind it. The publisher sends all but the last with the flag.
unfoldable pub publish : Buffer → List Buffer → Socket → Socket
unfolding send_data_more send_data_last
publish b [] socket = send_data_last b socket
publish b (c ∷ cs) socket = publish c cs (send_data_more b socket)

abbrev pub follows : List Buffer → Bool
follows [] = false
follows (b ∷ bs) = true

abbrev pub join : List Buffer → Buffer
join [] = []
join (b ∷ bs) = b ++ join bs

abbrev parts : List Buffer → Socket
parts [] = []
parts (b ∷ bs) = record { bytes = b; more = follows bs } ∷ parts bs

pub publish-parts :
    (b : Buffer) (bs : List Buffer) (socket : Socket)
    → publish b bs socket ≡ socket ++ parts (b ∷ bs)
unfolding publish send_data_more send_data_last send_data
publish-parts b [] socket = refl
publish-parts b (c ∷ cs) socket =
    publish-parts c cs _ ∙ append_assoc socket (record { bytes = b; more = true } ∷ []) _

copy-at-length :
    (got tail b : Buffer)
    → copy_at (got ++ tail) (length got) b ≡ (got ++ b) ++ drop (length b) tail
copy-at-length got tail b =
    rw
      (
        take-append got tail (length got) refl,
        drop-add (length got) (length b) (got ++ tail),
        drop-append got tail (length got) refl,
      )
      (sym (append_assoc got b (drop (length b) tail)))

-- The rest of a message, when `got` has been received and there is room for the rest.
receive_rest-parts :
    (bs : List Buffer) (got tail : Buffer) (bytes : ℕ) (later : Socket)
    → length got + length (join bs) ≤ bytes
    → receive_rest (follows bs) (got ++ tail) bytes (length got) (parts bs ++ later)
      ≡ some (record {
        size = length (got ++ join bs);
        buffer = (got ++ join bs) ++ drop (length (join bs)) tail;
        socket = later;
      })
unfolding receive_rest
receive_rest-parts [] got tail bytes later h = rw (append-nil got) refl
receive_rest-parts (b ∷ bs) got tail bytes later h =
    let j = join bs in
    let longer : length (b ++ j) ≡ length b + length j = length-append b j in
    let all : got ++ (b ++ j) ≡ (got ++ b) ++ j = sym (append_assoc got b j) in
    let left : drop (length (b ++ j)) tail ≡ drop (length j) (drop (length b) tail) =
      ap (λ n. drop n tail) longer ∙ drop-add (length b) (length j) tail in
    let rest =
      receive_rest-parts bs (got ++ b) (drop (length b) tail) bytes later
        (omega (arith, h, longer, length-append got b)) in
    if_elim
      (λ r.
        r
        ≡ some (record {
          size = length (got ++ (b ++ j));
          buffer = (got ++ (b ++ j)) ++ drop (length (b ++ j)) tail;
          socket = later;
        }))
      (ltb (bytes - length got) (length b)) (λ e. absurd (ground (arith, e, h, longer)))
      (λ e. rw (copy-at-length got tail b, sym (length-append got b), all, left) rest)

receive_data_more-parts :
    (b : Buffer) (bs : List Buffer) (buffer : Buffer) (bytes : ℕ) (later : Socket)
    → length (join (b ∷ bs)) ≤ bytes
    → receive_data_more buffer bytes (parts (b ∷ bs) ++ later)
      ≡ some (record {
        size = length (join (b ∷ bs));
        buffer = join (b ∷ bs) ++ drop (length (join (b ∷ bs))) buffer;
        socket = later;
      })
unfolding receive_data_more
receive_data_more-parts b bs buffer bytes later h =
    let j = join bs in
    let longer : length (b ++ j) ≡ length b + length j = length-append b j in
    let left : drop (length (b ++ j)) buffer ≡ drop (length j) (drop (length b) buffer) =
      ap (λ n. drop n buffer) longer ∙ drop-add (length b) (length j) buffer in
    if_elim
      (λ r.
        r
        ≡ some (record {
          size = length (b ++ j);
          buffer = (b ++ j) ++ drop (length (b ++ j)) buffer;
          socket = later;
        }))
      (ltb bytes (length b)) (λ e. absurd (ground (arith, e, h, longer)))
      (λ e.
        rw (copy-at-length [] buffer b, left)
          (receive_rest-parts bs b (drop (length b) buffer) bytes later (omega (arith, h, longer))))

-- A message whose parts fit the user's buffer arrives whole, whatever the buffer held before: the parts
-- one behind the other, with their number of bytes. The rest of the buffer and the messages behind this
-- one are left.
pub receive_data_more-publish :
    (b : Buffer) (bs : List Buffer) (buffer : Buffer) (bytes : ℕ) (later : Socket)
    → length (join (b ∷ bs)) ≤ bytes
    → receive_data_more buffer bytes (publish b bs [] ++ later)
      ≡ some (record {
        size = length (join (b ∷ bs));
        buffer = join (b ∷ bs) ++ drop (length (join (b ∷ bs))) buffer;
        socket = later;
      })
unfolding receive_data_more
receive_data_more-publish b bs buffer bytes later h =
    rw (publish-parts b bs []) (receive_data_more-parts b bs buffer bytes later h)

-- If the first part of a message of several parts is too large for the buffer and the rest is not, the
-- call returns 0, and the next one takes the parts behind it for a message.
pub receive_data_more-too_large :
    (b c : Buffer) (cs : List Buffer) (buffer : Buffer) (bytes : ℕ)
    → bytes < length b
    → length (join (c ∷ cs)) ≤ bytes
    → (r : Received) × (receive_data_more buffer bytes (publish b (c ∷ cs) []) ≡ some r)
      × (r.size ≡ 0)
      × (receive_data_more r.buffer bytes r.socket
          ≡ some (record {
            size = length (join (c ∷ cs));
            buffer = join (c ∷ cs) ++ drop (length (join (c ∷ cs))) buffer;
            socket = [];
          }))
unfolding receive_data_more
receive_data_more-too_large b c cs buffer bytes h k =
    let r : Received = record { size = 0; buffer = buffer; socket = parts (c ∷ cs) } in
    let tail : parts (c ∷ cs) ++ [] ≡ parts (c ∷ cs) = append-nil (parts (c ∷ cs)) in
    (
      r,
      rw (publish-parts b (c ∷ cs) []) (ground arith),
      refl,
      ap (receive_data_more buffer bytes) (sym tail)
          ∙ receive_data_more-parts c cs buffer bytes [] k,
    )

receive_vector_rest-parts :
    (bs : List Buffer) (got : Buffer) (later : Socket)
    → receive_vector_rest (follows bs) got (parts bs ++ later) ≡ some (got ++ join bs, later)
unfolding receive_vector_rest
receive_vector_rest-parts [] got later = rw (append-nil got) refl
receive_vector_rest-parts (b ∷ bs) got later =
    receive_vector_rest-parts bs (got ++ b) later
    ∙ ap (λ v. some (v, later)) (append_assoc got b (join bs))

-- The overload that fills a vector takes any message whole.
pub receive_vector_more-publish :
    (b : Buffer) (bs : List Buffer) (later : Socket)
    → receive_vector_more (publish b bs [] ++ later) ≡ some (join (b ∷ bs), later)
unfolding receive_vector_more
receive_vector_more-publish b bs later =
    rw (publish-parts b bs []) (receive_vector_rest-parts bs b later)
