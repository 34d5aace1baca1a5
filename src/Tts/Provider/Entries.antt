-- ===== src/Tts/Provider/Entries.antt =====
-- The entries and the calls of the dispatcher keep the order of the requests
-- (src/core/tts/provider.rs).
use sayna.Prelude.{
  ℕ, zero, suc, ◌≤◌, ◌==◌, Bool, true, false, ◌&&◌, List, [], ◌∷◌, ◌++◌, length, get_elem?,
  is_empty, refl, ap, ◌≡◌, ◌∙◌, ◌⊎◌, inl, inr, Bool-cases, Option-cases, arith,
}
use mathlib.Core.List.{append_assoc}
use sayna.Tts.{Message, audio, failure}
use sayna.Tts.Provider.{
  Call, on_error, on_complete, Channel, RequestEntry, QueuedJob, Task, off, idle, dead, busy,
  Provider, modify, send_to, close, is_raw,
}
use sayna.Tts.Provider.Speak.{clear_queue, abort_job}
use sayna.Tts.Provider.Tasks.{
  tell, entry_ends, dispatch_audio, dispatch_message, receive, receive_from, dispatch, drop_first,
}

-- Calls for requests in the order of the requests, from `lo` to `hi`.
abbrev pub IsOrdered : ℕ → List (ℕ × Call) → ℕ → Type 0
IsOrdered lo [] hi = lo ≤ hi
IsOrdered lo ((ticket, call) ∷ calls) hi = (lo ≤ ticket) × IsOrdered ticket calls hi

-- Entries of distinct requests in their order, from `lo` and below `n`.
abbrev Ascends : ℕ → List RequestEntry → ℕ → Type 0
Ascends lo [] n = lo ≤ n
Ascends lo (e ∷ es) n = (lo ≤ e.receiver) × Ascends (suc e.receiver) es n

-- The calls after `base` are for requests from `lo` on, in order, and what waits comes after them.
abbrev pub IsInOrder : List (ℕ × Call) → ℕ → List (ℕ × Call) → List RequestEntry → ℕ → Type 0
IsInOrder base lo calls es n =
    (later : List (ℕ × Call)) × (b : ℕ) × (calls ≡ base ++ later)
    × IsOrdered lo later b
    × Ascends b es n

abbrev pub in_hand : Task (RequestEntry × Bool) → List RequestEntry
in_hand off = []
in_hand idle = []
in_hand dead = []
in_hand (busy (e, told)) = e ∷ []

-- The provider is in order after `base`.
abbrev pub Keeps : List (ℕ × Call) → ℕ → Provider → Type 0
Keeps base lo p =
    IsInOrder base lo p.calls (in_hand p.dispatcher ++ p.pending_queue) (length p.channels)

length-modify :
    (i : ℕ) (f : Channel → Channel) (channels : List Channel)
    → length (modify i f channels) ≡ length channels
unfolding modify
length-modify i f [] = refl
length-modify zero f (c ∷ channels) = refl
length-modify (suc i) f (c ∷ channels) = ap suc (length-modify i f channels)

pub length-close : (i : ℕ) (channels : List Channel) → length (close i channels) ≡ length channels
unfolding close
length-close i channels = length-modify i _ channels

pub length-send_to :
    (i : ℕ) (m : Message) (channels : List Channel)
    → length (send_to i m channels) ≡ length channels
unfolding send_to
length-send_to i m channels = length-modify i _ channels

pub length-clear_queue :
    (queue : List QueuedJob) (channels : List Channel)
    → length (clear_queue queue channels) ≡ length channels
unfolding clear_queue
length-clear_queue [] channels = refl
length-clear_queue (q ∷ queue) channels =
    length-clear_queue queue _ ∙ length-close q.sender _ ∙ length-send_to q.sender _ channels

pub length-abort_job :
    (task : Task QueuedJob) (channels : List Channel)
    → length (abort_job task channels) ≡ length channels
unfolding abort_job
length-abort_job (busy q) channels = length-close q.sender channels
length-abort_job off channels = refl
length-abort_job idle channels = refl
length-abort_job dead channels = refl

Ascends-lower :
    (lo hi : ℕ) (es : List RequestEntry) (n : ℕ) → lo ≤ hi → Ascends hi es n → Ascends lo es n
Ascends-lower lo hi [] n h a = omega (arith, h, a)
Ascends-lower lo hi (e ∷ es) n h (le, a) = (omega (arith, h, le), a)

Ascends-end : (lo : ℕ) (es : List RequestEntry) (n : ℕ) → Ascends lo es n → lo ≤ n
Ascends-end lo [] n a = a
Ascends-end lo (e ∷ es) n (le, a) =
    let rest : suc e.receiver ≤ n = Ascends-end (suc e.receiver) es n a in omega (arith, le, rest)

Ascends-append :
    (lo : ℕ) (es : List RequestEntry) (e : RequestEntry)
    → Ascends lo es e.receiver
    → Ascends lo (es ++ (e ∷ [])) (suc e.receiver)
Ascends-append lo [] e a = (a, omega arith)
Ascends-append lo (d ∷ es) e (le, a) = (le, Ascends-append (suc d.receiver) es e a)

IsOrdered-append :
    (lo : ℕ) (calls : List (ℕ × Call)) (b ticket : ℕ) (call : Call)
    → IsOrdered lo calls b
    → b ≤ ticket
    → IsOrdered lo (calls ++ ((ticket, call) ∷ [])) ticket
IsOrdered-append lo [] b ticket call o h = (omega (arith, o, h), omega arith)
IsOrdered-append lo ((t, c) ∷ calls) b ticket call (le, o) h =
    (le, IsOrdered-append t calls b ticket call o h)

pub Task-cases :
    {A : Type 0} → (t : Task A) → ((t ≡ off) ⊎ ((t ≡ dead) ⊎ (t ≡ idle))) ⊎ ((a : A) × (t ≡ busy a))
Task-cases off = inl (inl refl)
Task-cases dead = inl (inr (inl refl))
Task-cases idle = inl (inr (inr refl))
Task-cases (busy a) = inr (a, refl)

pub List-cases :
    {A : Type 0} → (xs : List A) → (xs ≡ []) ⊎ ((x : A) × (ys : List A) × (xs ≡ x ∷ ys))
List-cases [] = inl refl
List-cases (x ∷ xs) = inr (x, xs, refl)

module _ (base : List (ℕ × Call)) (lo : ℕ) where
  told-IsInOrder :
      (e : RequestEntry) (told : Bool) (call : Call) (calls : List (ℕ × Call))
      (es : List RequestEntry) (n : ℕ)
      → IsInOrder base lo calls (e ∷ es) n
      → IsInOrder base lo (tell e.receiver told call calls) (e ∷ es) n
  unfolding tell
  told-IsInOrder e false call calls es n i = i
  told-IsInOrder e true call calls es n (later, b, same, o, (le, a)) = (
    later ++ ((e.receiver, call) ∷ []),
    e.receiver,
    ap (λ cs. cs ++ ((e.receiver, call) ∷ [])) same
        ∙ append_assoc base later ((e.receiver, call) ∷ []),
    IsOrdered-append lo later b e.receiver call o le,
    (omega arith, a),
  )

  -- The entry in hand is done with.
  ended-IsInOrder :
      (e : RequestEntry) (calls : List (ℕ × Call)) (es : List RequestEntry) (n : ℕ)
      → IsInOrder base lo calls (e ∷ es) n
      → IsInOrder base lo calls es n
  ended-IsInOrder e calls es n (later, b, same, o, (le, a)) =
      (later, b, same, o, Ascends-lower b (suc e.receiver) es n (omega (arith, le)) a)

  -- Nothing waits any more.
  pub cleared-IsInOrder :
      (calls : List (ℕ × Call)) (es : List RequestEntry) (n m : ℕ)
      → m ≡ n
      → IsInOrder base lo calls es n
      → IsInOrder base lo calls [] m
  cleared-IsInOrder calls es n m len (later, b, same, o, a) =
      let below : b ≤ n = Ascends-end b es n a in (later, b, same, o, omega (arith, below, len))

  pub queued-IsInOrder :
      (e : RequestEntry) (calls : List (ℕ × Call)) (es : List RequestEntry)
      → IsInOrder base lo calls es e.receiver
      → IsInOrder base lo calls (es ++ (e ∷ [])) (suc e.receiver)
  queued-IsInOrder e calls es (later, b, same, o, a) = (later, b, same, o, Ascends-append b es e a)

  entry_ends-Keeps :
      (e : RequestEntry) (told : Bool) (p : Provider)
      → IsInOrder base lo p.calls (e ∷ p.pending_queue) (length p.channels)
      → Keeps base lo (entry_ends e told p)
  unfolding entry_ends
  entry_ends-Keeps e told p i = ended-IsInOrder e _ p.pending_queue (length p.channels) (
      told-IsInOrder e (told && is_empty p.pending_queue) on_complete p.calls p.pending_queue
        (length p.channels) i)

  dispatch_message-Keeps :
      (e : RequestEntry) (told told' : Bool) (m : Message) (p : Provider)
      → p.dispatcher ≡ busy (e, told')
      → IsInOrder base lo p.calls (e ∷ p.pending_queue) (length p.channels)
      → Keeps base lo (dispatch_message e told m p)
  unfolding dispatch_message dispatch_audio
  dispatch_message-Keeps e told told' (failure x) p at i =
      entry_ends-Keeps e told (record p { calls = tell e.receiver told (on_error x) p.calls })
        (told-IsInOrder e told (on_error x) p.calls p.pending_queue (length p.channels) i)
  dispatch_message-Keeps e told told' (audio chunk) p at i =
      elim (Bool-cases (told && is_raw e.format && (e.sample_rate == 0))) [
        | inl y ↦
            rw (dispatch_message, dispatch_audio, y)
              (ended-IsInOrder e p.calls p.pending_queue (length p.channels) i)
        | inr n ↦
            rw (dispatch_message, dispatch_audio, n, at)
              (told-IsInOrder e told _ p.calls p.pending_queue (length p.channels) i)
      ]

  receive-Keeps :
      (e : RequestEntry) (told : Bool) (waiting : List Message) (still_open : Bool) (p : Provider)
      → p.dispatcher ≡ busy (e, told)
      → IsInOrder base lo p.calls (e ∷ p.pending_queue) (length p.channels)
      → Keeps base lo (receive e told waiting still_open p)
  unfolding receive
  receive-Keeps e told [] true p at i = rw at i
  receive-Keeps e told [] false p at i = entry_ends-Keeps e told p i
  receive-Keeps e told (m ∷ ms) still_open p at i =
      dispatch_message-Keeps e told told m
        (record p { channels = modify e.receiver drop_first p.channels }) at
        (rw (length-modify e.receiver drop_first p.channels) i)

  pub dispatch-Keeps : (p : Provider) → Keeps base lo p → Keeps base lo (dispatch p)
  unfolding dispatch receive_from
  dispatch-Keeps p i = elim (Task-cases p.dispatcher) [
    | inl (inl at) ↦ rw (dispatch, at) i
    | inl (inr (inl at)) ↦ rw (dispatch, at) i
    | inl (inr (inr at)) ↦ elim (List-cases p.pending_queue) [
      | inl none_left ↦ rw (dispatch, at, none_left) i
      | inr (e, es, some_left) ↦ rw (dispatch, at, some_left) (rw (at, some_left) at i)
    ]
    | inr ((e, told), at) ↦ elim (Option-cases (get_elem? p.channels e.receiver)) [
      | inl n ↦ rw (dispatch, at, n) i
      | inr (c, n) ↦
          rw (dispatch, at, n) (receive-Keeps e told c.waiting c.open_end p at (rw at at i))
    ]
  ]
