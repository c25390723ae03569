-- ===== src/Graph/Upload.antt =====
-- internal/teams/graph/chunked_upload.go: what an upload sends, to an upload session that expects
-- the bytes in their order.
use mautrix_teams.Base.{
  ℕ, zero, suc, ◌+◌, ◌-◌, ◌^◌, ◌≤◌, ◌<◌, true, false, Option, some, List, [], ◌∷◌, ◌++◌, ltb, leb,
  ◌==◌, length, ◌≡◌, refl, sym, ◌∙◌, ap, arith, All, Bool-cases, inl, inr, dec_lt, lt→ltb,
}
use mautrix_teams.Base.Int.{ℤ, pos, negsuc}
use mautrix_teams.Base.Text.{Text, trim_space, is_empty}
use mautrix_teams.Graph.{
  Put, Answer, Ending, uploaded, goes_on, ends, replied, take, drop, slice, chunk_put, chunk_end,
  clamp_end, parse_next_expected_start, after_start, after_ranges, final_item, after_answer,
  then_from, sent_then, upload_chunk, upload_from, GraphClient, upload_file_in_chunks,
  effective_chunk_size, positive_chunk_size, upload_with,
}

-- The bytes of the requests, in the order they are sent.
unfoldable pub sent_bytes : List Put → List ℕ
sent_bytes [] = []
sent_bytes (p ∷ ps) = p.body ++ sent_bytes ps

take-drop : (n : ℕ) (s : List ℕ) → take n s ++ drop n s ≡ s
unfolding take drop
take-drop zero s = refl
take-drop (suc n) [] = refl
take-drop (suc n) (x ∷ s) = ap (λ t. x ∷ t) (take-drop n s)

drop-drop : (a b c : ℕ) (s : List ℕ) → a + b ≡ c → drop b (drop a s) ≡ drop c s
unfolding drop
drop-drop zero b c s h = let e : b ≡ c = omega (arith, h) in rw e refl
drop-drop (suc a) b zero s h = ground arith
drop-drop (suc a) zero (suc c) [] h = refl
drop-drop (suc a) (suc b) (suc c) [] h = refl
drop-drop (suc a) b (suc c) (x ∷ s) h = drop-drop a b c s (omega (arith, h))

drop-all : (s : List ℕ) (n : ℕ) → length s ≤ n → drop n s ≡ []
unfolding drop
drop-all [] zero h = refl
drop-all [] (suc n) h = refl
drop-all (x ∷ s) zero h = ground arith
drop-all (x ∷ s) (suc n) h = drop-all s n (omega arith)

length-take : (n : ℕ) (s : List ℕ) → length (take n s) ≤ n
unfolding take
length-take zero s = omega arith
length-take (suc n) [] = omega arith
length-take (suc n) (x ∷ s) = omega (arith, length-take n s)

slice-drop :
    (content : List ℕ) (start stop : ℕ)
    → start ≤ stop
    → slice content start stop ++ drop stop content ≡ drop start content
unfolding slice
slice-drop content start stop h =
    ap (λ r. slice content start stop ++ r)
      (sym (drop-drop start (stop - start) stop content (omega arith)))
    ∙ take-drop (stop - start) (drop start content)

-- The chunk's end, where the sum does not wrap.
chunk_end-in :
    (start size total : ℕ)
    → start < total
    → 0 < size
    → total + size ≤ 2 ^ 63
    → (e : ℕ) × (chunk_end start size total ≡ pos e)
      × (start ≤ e)
      × (e < total)
      × (suc e ≤ start + size)
unfolding chunk_end clamp_end
chunk_end-in start size total h hs hb = elim (Bool-cases (leb total (start + size - 1))) [
  | inl e ↦ (total - 1, ground arith, ground arith, omega arith, ground arith)
  | inr e ↦ (start + size - 1, ground arith, omega arith, ground arith, omega arith)
]

effective_chunk_size-positive : (z : ℤ) (size : ℕ) → effective_chunk_size z ≡ some size → 0 < size
unfolding effective_chunk_size positive_chunk_size
effective_chunk_size-positive (pos zero) size h = ground arith
effective_chunk_size-positive (pos (suc n)) size h = ground arith
effective_chunk_size-positive (negsuc n) size h = ground arith

module _ {W I : Type 0} (put : W → Put → Answer × W) (decode_ranges : Text → Option (List Text))
    (parse_item : Text → Option I) (decode_id : Text → Option Text)
    (get_item : W → Text → Option I) where
  -- A session that takes the content's bytes in order: it keeps the number of the byte that it
  -- expects, and takes no chunk but one that starts there. After a chunk it expects the byte that
  -- follows, and after the last chunk it answers with the item.
  pub record IsOrderly (content : List ℕ) (expected : W → ℕ) : Type 0 where
    pub accepts :
        (w : W) (start e : ℕ)
        → expected w ≡ start
        → start ≤ e
        → suc e < length content
        → (body : Text) × (r : Text) × (rs : List Text) × ((put w (chunk_put content start e)).0
            ≡ replied 202 body)
          × (decode_ranges body ≡ some (r ∷ rs))
          × (is_empty (trim_space r) ≡ false)
          × (parse_next_expected_start r ≡ some (suc e))
          × (expected (put w (chunk_put content start e)).1 ≡ suc e)
    pub finishes :
        (w : W) (start e : ℕ)
        → expected w ≡ start
        → start ≤ e
        → suc e ≡ length content
        → (body : Text) × (i : I) × ((put w (chunk_put content start e)).0 ≡ replied 201 body)
          × (parse_item body ≡ some i)

  module _ (content : List ℕ) (expected : W → ℕ) (orderly : IsOrderly content expected) where
    after_accepted :
        (w w' : W) (start e : ℕ)
        → expected w ≡ start
        → start ≤ e
        → suc e < length content
        → after_answer put decode_ranges parse_item decode_id get_item w'
            (put w (chunk_put content start e)).0
          ≡ goes_on (suc e)
    unfolding after_answer after_ranges after_start
    after_accepted w w' start e at le h =
        let (body, r, rs, a, b, c, d, next) = orderly.accepts w start e at le h in
        rw (a, b, c, d) refl

    after_finished :
        (w w' : W) (start e : ℕ)
        → expected w ≡ start
        → start ≤ e
        → suc e ≡ length content
        → (i : I) × (after_answer put decode_ranges parse_item decode_id get_item w'
              (put w (chunk_put content start e)).0
            ≡ ends (uploaded i))
    unfolding after_answer final_item
    after_finished w w' start e at le h =
        let (body, i, a, b) = orderly.finishes w start e at le h in (i, rw (a, b) refl)

    -- What holds of a finished upload of the bytes from `start`.
    abbrev Delivered : ℕ → ℕ → Ending I × List Put → Type 0
    Delivered size start r =
        ((i : I) × (r.0 ≡ uploaded i))
        × (sent_bytes r.1 ≡ drop start content)
        × All (λ p. length p.body ≤ size) r.1

    upload_chunk-Delivered :
        (again : W → ℕ → Ending I × List Put) (size : ℕ) (w : W) (start e : ℕ)
        → expected w ≡ start
        → start ≤ e
        → e < length content
        → suc e ≤ start + size
        → (suc e < length content
            → (w' : W) → expected w' ≡ suc e
            → Delivered size (suc e) (again w' (suc e)))
        → Delivered size start (
            upload_chunk put decode_ranges parse_item decode_id get_item again w content start
              (pos e))
    unfolding upload_chunk sent_then then_from chunk_put sent_bytes slice
    upload_chunk-Delivered again size w start e at hs he hb rec =
        let shut : ltb (suc e) start ≡ false = ground arith in
        let w' : W = (put w (chunk_put content start e)).1 in
        let short : length (slice content start (suc e)) ≤ size =
          omega (arith, length-take (suc e - start) (drop start content)) in
        elim (dec_lt (suc e) (length content)) [
          | yes h ↦
              let (body, range, ranges, b, c, d, n, next) = orderly.accepts w start e at hs h in
              let r = rec h w' next in
              let a = after_accepted w w' start e at hs h in
              rw (shut, a)
                (
                  r.0,
                  ap (λ t. slice content start (suc e) ++ t) r.1
                      ∙ slice-drop content start (suc e) (omega arith),
                  (short, r.2),
                )
          | no h ↦
              let (i, a) = after_finished w w' start e at hs (omega (arith, h)) in
              rw (shut, a)
                (
                  (i, refl),
                  ap (λ t. slice content start (suc e) ++ t)
                        (sym (drop-all content (suc e) (omega (arith, h))))
                      ∙ slice-drop content start (suc e) (omega arith),
                  (short, tt),
                )
        ]

    upload_from-Delivered :
        (fuel size : ℕ) (w : W) (start : ℕ)
        → expected w ≡ start
        → start < length content
        → length content ≤ start + fuel
        → 0 < size
        → length content + size ≤ 2 ^ 63
        → Delivered size start
            (upload_from put decode_ranges parse_item decode_id get_item fuel size content w start)
    unfolding upload_from
    upload_from-Delivered zero size w start at h hf hs hb = absurd (omega arith)
    upload_from-Delivered (suc fuel) size w start at h hf hs hb =
        let inside : ltb start (length content) ≡ true = lt→ltb _ _ h in
        let (e, ee, he, hl, hc) = chunk_end-in start size (length content) h hs hb in
        rw (inside, ee)
          (upload_chunk-Delivered
            (upload_from put decode_ranges parse_item decode_id get_item fuel size content) size w
            start e at he hl hc
            (λ more w' next.
              upload_from-Delivered fuel size w' (suc e) next more (omega arith) hs hb))

    -- With an HTTP client, a session's address, content that is not empty and an aligned chunk size
    -- (or none, for the default), and as much fuel as there are bytes, the upload to a session that
    -- takes the bytes in order, and expects the first, ends with an item; the requests' bodies, one after the other, are
    -- the content, and none is longer than the chunk size. The chunk size is small enough for the
    -- sum with the length to be an int64.
    pub upload_file_in_chunks-Delivered :
        (c : GraphClient) (upload_url : Text) (w : W) (size : ℕ)
        → expected w ≡ 0
        → c.has_http ≡ true
        → is_empty (trim_space upload_url) ≡ false
        → 0 < length content
        → effective_chunk_size c.chunk_size ≡ some size
        → length content + size ≤ 2 ^ 63
        → let r =
            upload_file_in_chunks put decode_ranges parse_item decode_id get_item
              (length content)
              c
              upload_url
              content
              w in
          ((i : I) × (r.0 ≡ uploaded i))
          × (sent_bytes r.1 ≡ content)
          × All (λ p. length p.body ≤ size) r.1
    unfolding upload_file_in_chunks upload_with drop
    upload_file_in_chunks-Delivered c upload_url w size at h u n e hb =
        let some_bytes : (length content == 0) ≡ false = ground arith in
        rw (h, u, some_bytes, e)
          (upload_from-Delivered (length content) size w 0 at n (omega arith)
            (effective_chunk_size-positive c.chunk_size size e) hb)
