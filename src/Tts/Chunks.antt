-- ===== src/Tts/Chunks.antt =====
-- Chunks of 10 ms (src/core/tts/provider.rs, `send_request_dyn` and `process_audio_chunk`): their size
-- by the encoding, and the loop that cuts what arrives.
pub mod Cut
use sayna.Prelude.{
  ℕ, zero, suc, ◌+◌, ◌-◌, ◌*◌, ◌/◌, ◌==◌, max, min, leb, Bool, true, false, ◌&&◌, ◌||◌, Option,
  none, some, List, [], ◌∷◌, ◌++◌, if◌then◌else◌, length, take, drop, is_empty, u32,
}
use sayna.Prelude.Text.{Text, codes, text_eq}
use sayna.Tts.{Bytes}

unfoldable pub is_linear : Text → Bool
is_linear f = text_eq f (codes "linear16") || text_eq f (codes "pcm")

unfoldable pub is_law : Text → Bool
is_law f = text_eq f (codes "mulaw") || (text_eq f (codes "ulaw") || text_eq f (codes "alaw"))

unfoldable pub bytes_per_sample : Text → ℕ
bytes_per_sample f = if is_linear f then 2 else if is_law f then 1 else 0

-- The bytes of 10 ms, and 0 for a format that is sent as it arrives.
unfoldable pub chunk_target_bytes : Text → ℕ → ℕ
unfolding bytes_per_sample
chunk_target_bytes encoding sample_rate =
    let first : ℕ =
      if is_linear encoding
      then sample_rate / 100 * 2
      else if is_law encoding
      then sample_rate / 100
      else 0 in
    if (first == 0) && (is_linear encoding || is_law encoding)
    then max sample_rate 100 / 100 * max (bytes_per_sample encoding) 1
    else first

-- One turn of the loop: bytes up to a chunk are moved over, and a whole chunk leaves the buffer.
unfoldable pub fill : ℕ → Bytes → Bytes → List Bytes × Bytes × Bytes
fill target buffer incoming =
    let n = min (target - length buffer) (length incoming) in
    let filled = buffer ++ take n incoming in
    let incoming' = drop n incoming in
    if leb target (length filled)
    then (take target filled ∷ [], drop target filled, incoming')
    else ([], filled, incoming')

-- The loop, on fuel: the chunks that are sent and what stays in the buffer.
unfoldable pub cut : ℕ → ℕ → Bytes → Bytes → List Bytes × Bytes
unfolding fill
cut zero target buffer incoming = ([], buffer)
cut (suc fuel) target buffer [] = ([], buffer)
cut (suc fuel) target buffer (x ∷ incoming) =
    let (sent, buffer', incoming') = fill target buffer (x ∷ incoming) in
    let (more, left) = cut fuel target buffer' incoming' in (sent ++ more, left)

-- `duration_ms` of a chunk: `none` for a format that is not raw audio, and for the panic at rate 0.
unfoldable pub duration_ms : Bytes → Text → ℕ → Option ℕ
duration_ms bytes format sample_rate =
    if is_linear format || is_law format
    then (if sample_rate == 0
        then none
        else some
            (u32 (u32 (length bytes / (if is_linear format then 2 else 1)) * 1000) / sample_rate))
    else none
