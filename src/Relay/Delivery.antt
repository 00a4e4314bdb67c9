-- ===== src/Relay/Delivery.antt =====
-- What the nodes of relay-server/src/mem_state.rs see over a history of calls.
use core_eng.Prelude.{
  suc, ◌≤◌, ◌≡◌, refl, sym, ap, ◌∙◌, false, List, [], ◌∷◌, ◌++◌, none, some, inl, inr, arith, Text,
  lookup, lookup-put, text_eq, text_eq_iff, get_elem?, take, take-suc, take-append_le, get_elem?_lt,
  length, length-append, is_empty, if◌then◌else◌, append-nil, append_assoc, All, All-append,
  All-get_elem?, ◌≡⟨◌⟩◌, ◌∎, Option-cases,
}
use core_eng.Relay.MemState.{Bytes, MemState, default, first_unread, read_at, get, post}

pub data Call : Type 0 where
  gets : Text → Call
  posts : Bytes → Call

unfoldable pub step : MemState → Call → MemState
step s (gets n) = (get n s).1
step s (posts msg) = post msg s

unfoldable pub run : MemState → List Call → MemState
run s [] = s
run s (c ∷ cs) = run (step s c) cs

abbrev keep : Bytes → List Bytes → List Bytes
keep r rs = if is_empty r then rs else r ∷ rs

abbrev seen : Text → MemState → Call → List Bytes → List Bytes
seen n s (gets m) rs = if text_eq m n then keep (get m s).0 rs else rs
seen n s (posts msg) rs = rs

-- The replies to node `n` that hold a message. An empty reply tells a client that there is none.
unfoldable pub received : Text → MemState → List Call → List Bytes
received n s [] = []
received n s (c ∷ cs) = seen n s c (received n (step s c) cs)

-- No highwater lies past the queue, and no stored message is empty.
pub record IsValid (s : MemState) : Type 0 where
  pub within : (n : Text) → first_unread n s ≤ length s.queue
  pub filled : All (λ m. is_empty m ≡ false) s.queue

-- A node that has read everything gets the empty reply and nothing changes; another one gets the
-- next message of the queue, and only its own highwater moves, by one.
pub get-advances :
    (n j : Text) (s : MemState) {m : Bytes}
    → get_elem? s.queue (first_unread n s) ≡ some m
    → ((get n s).0 ≡ m)
      × ((get n s).1.queue ≡ s.queue)
      × (first_unread j (get n s).1
          ≡ (if text_eq n j then suc (first_unread n s) else first_unread j s))
unfolding get first_unread
get-advances n j s h = ground (arith, lookup-put n j (first_unread n s) s.highwaters)

pub default-IsValid : IsValid default
unfolding first_unread lookup
default-IsValid = record { within = λ n. omega arith; filled = tt }

post-IsValid :
    (s : MemState) (msg : Bytes) → is_empty msg ≡ false → IsValid s → IsValid (post msg s)
unfolding post first_unread
post-IsValid s msg h v = record {
  within = λ n. omega (arith, v.within n, length-append {0} s.queue (msg ∷ []));
  filled = All-append (λ m. is_empty m ≡ false) s.queue (msg ∷ []) v.filled (h, tt);
}

-- A node that has read everything gets the empty reply, and nothing changes.
pub get-idle :
    (n : Text) (s : MemState) → get_elem? s.queue (first_unread n s) ≡ none → get n s ≡ ([], s)
unfolding get first_unread
get-idle n s h = rw (h, read_at)

get-IsValid : (s : MemState) (m : Text) → IsValid s → IsValid (get m s).1
get-IsValid s m v = elim (Option-cases (get_elem? s.queue (first_unread m s))) [
  | inl e ↦ rw (get-idle m s e) v
  | inr (r, e) ↦
      let q = (get-advances m [] s e).1 in
      record {
        within = λ n.
            ground
              (arith, v.within n, get-advances m n s e, get_elem?_lt (first_unread m s) s.queue e);
        filled = rw q v.filled;
      }
]

abbrev pub IsFilled : Call → Type 0
IsFilled (gets n) = Unit
IsFilled (posts msg) = is_empty msg ≡ false

pub step-IsValid : (s : MemState) (c : Call) → IsFilled c → IsValid s → IsValid (step s c)
unfolding step
step-IsValid s (gets n) f v = get-IsValid s n v
step-IsValid s (posts msg) f v = post-IsValid s msg f v

-- What node `n` has read so far.
abbrev pub read_by : Text → MemState → List Bytes
read_by n s = take (first_unread n s) s.queue

seen-append :
    (n : Text) (s : MemState) (c : Call) (rs : List Bytes) → seen n s c rs ≡ seen n s c [] ++ rs
seen-append n s (gets m) rs = ground arith
seen-append n s (posts msg) rs = refl

get-read_by :
    (n m : Text) (s : MemState)
    → IsValid s
    → read_by n (get m s).1 ≡ read_by n s ++ seen n s (gets m) []
get-read_by n m s v = elim (Option-cases (get_elem? s.queue (first_unread m s))) [
  | inl e ↦ rw (get-idle m s e) (ground (arith, append-nil (read_by n s)))
  | inr (r, e) ↦ ground (
    arith,
    get-advances m n s e,
    append-nil (read_by n s),
    take-suc (first_unread m s) s.queue e,
    text_eq_iff m n,
    All-get_elem? (λ m. is_empty m ≡ false) s.queue (first_unread m s) v.filled e,
  )
]

step-read_by :
    (n : Text) (s : MemState) (c : Call)
    → IsValid s
    → read_by n (step s c) ≡ read_by n s ++ seen n s c []
unfolding step post first_unread
step-read_by n s (gets m) v = get-read_by n m s v
step-read_by n s (posts msg) v =
    take-append_le (first_unread n s) s.queue (msg ∷ []) (v.within n) ∙ sym (append-nil _)

-- Over any history of calls in which no posted message is empty, from any valid state, what a node
-- had read before and the replies that it receives are together the first messages of the queue,
-- in the order of posting: none is lost, repeated or reordered, whatever the other nodes do.
pub received-read_by :
    (n : Text) (s : MemState) (cs : List Call)
    → IsValid s
    → All IsFilled cs
    → read_by n s ++ received n s cs ≡ read_by n (run s cs)
unfolding run received
received-read_by n s [] v f = append-nil _
received-read_by n s (c ∷ cs) v f =
    read_by n s ++ seen n s c (received n (step s c) cs)
    ≡⟨ ap (λ l. read_by n s ++ l) (seen-append n s c _) ⟩
      read_by n s ++ (seen n s c [] ++ received n (step s c) cs)
    ≡⟨ sym (append_assoc (read_by n s) (seen n s c []) _) ⟩
      (read_by n s ++ seen n s c []) ++ received n (step s c) cs
    ≡⟨ ap (λ l. l ++ received n (step s c) cs) (sym (step-read_by n s c v)) ⟩
      read_by n (step s c) ++ received n (step s c) cs
    ≡⟨ received-read_by n (step s c) cs (step-IsValid s c f.0 v) f.1 ⟩
      read_by n (run (step s c) cs) ∎

unfoldable pub posted : List Call → List Bytes
posted [] = []
posted (gets n ∷ cs) = posted cs
posted (posts msg ∷ cs) = msg ∷ posted cs

queue-run : (s : MemState) (cs : List Call) → (run s cs).queue ≡ s.queue ++ posted cs
unfolding run posted step post get first_unread
queue-run s [] = sym (append-nil _)
queue-run s (gets n ∷ cs) =
    queue-run (get n s).1 cs ∙ ground (arith, Option-cases (get_elem? s.queue (first_unread n s)))
queue-run s (posts msg ∷ cs) = queue-run (post msg s) cs ∙ append_assoc s.queue (msg ∷ []) _

-- Whatever calls are made to an empty relay, in any order and by any nodes, if no posted message is
-- empty, then the replies to a node that hold a message are the first messages posted, in the order
-- of posting, and as many as the index of its first unread one says: none is lost, repeated or reordered.
pub received-posted :
    (n : Text) (cs : List Call)
    → All IsFilled cs
    → received n default cs ≡ take (first_unread n (run default cs)) (posted cs)
unfolding lookup first_unread
received-posted n cs f =
    received-read_by n default cs default-IsValid f
    ∙ ap (take (first_unread n (run default cs))) (queue-run default cs)
