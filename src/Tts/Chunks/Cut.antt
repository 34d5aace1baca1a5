-- ===== src/Tts/Chunks/Cut.antt =====
-- The loop that cuts what arrives into chunks (src/core/tts/provider.rs, `send_request_dyn`) ends and
-- loses nothing.
use sayna.Prelude.{
  ℕ, zero, suc, ◌+◌, ◌-◌, ◌≤◌, ◌<◌, min, Bool-cases, leb, inl, inr, true, List, [], ◌∷◌, ◌++◌, refl,
  ap, sym, ◌∙◌, ◌≡◌, ◌↔◌, ◌||◌, length, take, drop, take-append-drop, length-append, length-take,
  length-drop, arith,
}
use mathlib.Core.List.{append_assoc, append-nil}
use sayna.Prelude.Text.{Text}
use sayna.Tts.{Bytes}
use sayna.Tts.Chunks.{is_linear, is_law, bytes_per_sample, chunk_target_bytes, fill, cut}

-- Chunks of raw audio have a size, and others are sent as they arrive.
chunk_target_bytes-raw :
    (encoding : Text) (sample_rate : ℕ)
    → (0 < chunk_target_bytes encoding sample_rate)
      ↔ ((is_linear encoding || is_law encoding) ≡ true)
unfolding chunk_target_bytes bytes_per_sample
chunk_target_bytes-raw encoding sample_rate = ground arith

abbrev pub flatten : List Bytes → Bytes
flatten [] = []
flatten (c ∷ cs) = c ++ flatten cs

abbrev pub AllOfLength : ℕ → List Bytes → Type 0
AllOfLength n [] = Unit {0}
AllOfLength n (c ∷ cs) = (length c ≡ n) × AllOfLength n cs

pub flatten-append : (cs ds : List Bytes) → flatten (cs ++ ds) ≡ flatten cs ++ flatten ds
flatten-append [] ds = refl
flatten-append (a ∷ cs) ds =
    ap (λ (l : Bytes). a ++ l) (flatten-append cs ds)
    ∙ sym (append_assoc a (flatten cs) (flatten ds))

pub AllOfLength-append :
    (n : ℕ) (cs ds : List Bytes) → AllOfLength n cs → AllOfLength n ds → AllOfLength n (cs ++ ds)
AllOfLength-append n [] ds h k = k
AllOfLength-append n (a ∷ cs) ds (e, h) k = (e, AllOfLength-append n cs ds h k)

fill_lem :
    (target : ℕ) (buffer : Bytes) (x : ℕ) (incoming : Bytes)
    → length buffer < target
    → let (sent, buffer', incoming') = fill target buffer (x ∷ incoming) in
      (flatten sent ++ (buffer' ++ incoming') ≡ buffer ++ (x ∷ incoming))
      × AllOfLength target sent
      × (length buffer' < target)
      × (length incoming' ≤ length incoming)
unfolding fill
fill_lem target buffer x incoming h =
    let n : ℕ = min (target - length buffer) (suc (length incoming)) in
    let a : Bytes = take n (x ∷ incoming) in
    let b : Bytes = drop n (x ∷ incoming) in
    let filled : Bytes = buffer ++ a in
    let size : length filled ≡ length buffer + n =
      omega (arith, length-append buffer a, length-take n (x ∷ incoming)) in
    let whole : filled ++ b ≡ buffer ++ (x ∷ incoming) =
      append_assoc buffer a b
      ∙ ap (λ (l : Bytes). buffer ++ l) (take-append-drop n (x ∷ incoming)) in
    let shorter : length b ≤ length incoming = omega (arith, length-drop n (x ∷ incoming)) in
    elim (Bool-cases (leb target (length filled))) [
      | inl e ↦ rw e (
        ap (λ (l : Bytes). l ++ (drop target filled ++ b)) (append-nil (take target filled))
            ∙ sym (append_assoc (take target filled) (drop target filled) b)
            ∙ ap (λ (l : Bytes). l ++ b) (take-append-drop target filled)
            ∙ whole,
        (ground (arith, length-take target filled), tt),
        ground (arith, length-drop target filled),
        shorter,
      )
      | inr e ↦ rw e (whole, tt, ground arith, shorter)
    ]

-- With room in the buffer for a byte more, fuel for each byte that arrives is enough, and then the
-- chunks and what stays in the buffer are the bytes that were there and arrived, in order; every chunk
-- has the size asked for, and less than one stays.
pub cut-whole :
    (fuel target : ℕ) (buffer incoming : Bytes)
    → length buffer < target
    → length incoming ≤ fuel
    → let (sent, left) = cut fuel target buffer incoming in
      (flatten sent ++ left ≡ buffer ++ incoming) × AllOfLength target sent × (length left < target)
unfolding cut
cut-whole zero target buffer [] h le = (sym (append-nil buffer), tt, h)
cut-whole zero target buffer (x ∷ incoming) h le = absurd (omega arith)
cut-whole (suc fuel) target buffer [] h le = (sym (append-nil buffer), tt, h)
cut-whole (suc fuel) target buffer (x ∷ incoming) h le =
    let (sent, buffer', incoming') = fill target buffer (x ∷ incoming) in
    let (same, sizes, room, shorter) = fill_lem target buffer x incoming h in
    let (same', sizes', room') = cut-whole fuel target buffer' incoming' room (omega arith) in
    (
      rw (flatten-append sent (cut fuel target buffer' incoming').0, append_assoc, same') same,
      AllOfLength-append target sent (cut fuel target buffer' incoming').0 sizes sizes',
      room',
    )
