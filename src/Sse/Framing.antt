-- ===== src/Sse/Framing.antt =====
-- Framing: events are cut at blank lines, whatever the chunks in which the bytes arrive.
use rust_llm_gateway_semanti.Prelude.{
  ℕ, zero, suc, ◌+◌, ◌≤◌, ◌≡◌, ◌≢◌, refl, inl, inr, none, some, List, [], ◌∷◌, ◌++◌, Text, length,
  length-append, length-drop, take-append, drop-append, take-append-drop, take, drop, All, arith,
  Option-cases, append_assoc, append-nil, ap, sym, ◌∙◌, Bool-cases,
}
use rust_llm_gateway_semanti.Prelude.Utf8.{is_utf8}
use rust_llm_gateway_semanti.Sse.{find_event_end, keep_utf8, drain, push}

-- A position that is found leaves room for the blank line, and more bytes do not change it.
find_bound : (s : Text) (i : ℕ) → find_event_end s ≡ some i → i + 2 ≤ length s
unfolding find_event_end
find_bound [] i e = cc
find_bound (a ∷ []) i e = cc
find_bound (a ∷ b ∷ s) i e = elim (Option-cases (find_event_end (b ∷ s))) [
  | inl missed ↦ ground arith
  | inr (j, found) ↦ ground (arith, find_bound (b ∷ s) j found)
]

find-append : (s t : Text) (i : ℕ) → find_event_end s ≡ some i → find_event_end (s ++ t) ≡ some i
unfolding find_event_end
find-append [] t i e = cc
find-append (a ∷ []) t i e = cc
find-append (a ∷ b ∷ s) t i e = elim (Option-cases (find_event_end (b ∷ s))) [
  | inl missed ↦ ground arith
  | inr (j, found) ↦ ground (arith, find-append (b ∷ s) t j found)
]

drain-none : (f : ℕ) (s : Text) → find_event_end s ≡ none → drain f s ≡ ([], s)
unfolding drain
drain-none zero s e = refl
drain-none (suc f) s e = rw (e, drain)

drain-some :
    (f : ℕ) (s : Text) (i : ℕ)
    → find_event_end s ≡ some i
    → drain (suc f) s
      ≡ (keep_utf8 (take (i + 2) s) (drain f (drop (i + 2) s)).0, (drain f (drop (i + 2) s)).1)
unfolding drain
drain-some f s i e = rw (e, drain)

-- A buffer with no room has no event, whatever the fuel.
no_room : (s : Text) (i : ℕ) → length s ≤ 0 → find_event_end s ≢ some i
no_room s i h e = absurd (omega (arith, find_bound s i e))

rest_shorter :
    (f : ℕ) (s : Text) (i : ℕ)
    → find_event_end s ≡ some i
    → length s ≤ suc f
    → length (drop (i + 2) s) ≤ f
rest_shorter f s i e h = omega (arith, length-drop (i + 2) s, find_bound s i e)

-- Any fuel that the length does not pass gives the same result.
drain_fuel : (f g : ℕ) (s : Text) → length s ≤ f → length s ≤ g → drain f s ≡ drain g s
drain_fuel zero g s h k = elim (Option-cases (find_event_end s)) [
  | inl missed ↦ drain-none 0 s missed ∙ sym (drain-none g s missed)
  | inr (i, found) ↦ absurd (no_room s i h found)
]
drain_fuel (suc f) zero s h k = elim (Option-cases (find_event_end s)) [
  | inl missed ↦ drain-none (suc f) s missed ∙ sym (drain-none 0 s missed)
  | inr (i, found) ↦ absurd (no_room s i k found)
]
drain_fuel (suc f) (suc g) s h k = elim (Option-cases (find_event_end s)) [
  | inl missed ↦ drain-none (suc f) s missed ∙ sym (drain-none (suc g) s missed)
  | inr (i, found) ↦
      let same =
        drain_fuel f g (drop (i + 2) s) (rest_shorter f s i found h) (rest_shorter g s i found k) in
      rw (drain-some f s i found, drain-some g s i found, same)
]

keep_utf8-append :
    (event : Text) (xs ys : List Text) → keep_utf8 event (xs ++ ys) ≡ keep_utf8 event xs ++ ys
keep_utf8-append event xs ys = elim (Bool-cases (is_utf8 event)) [
  | inl valid ↦ rw valid
  | inr not_valid ↦ rw not_valid
]

-- Two texts in a row: the events of the first, then those of what it leaves and the second.
drain-append :
    (f m : ℕ) (s t : Text)
    → length (s ++ t) ≤ f
    → length (s ++ t) ≤ m
    → drain f (s ++ t)
      ≡ ((drain f s).0 ++ (drain m ((drain f s).1 ++ t)).0, (drain m ((drain f s).1 ++ t)).1)
drain-append zero m s t h k = elim (Option-cases (find_event_end s)) [
  | inl missed ↦ rw (drain-none 0 s missed) (drain_fuel 0 m (s ++ t) h k)
  | inr (i, found) ↦ absurd (no_room s i (omega (arith, length-append s t)) found)
]
drain-append (suc f) m s t h k = elim (Option-cases (find_event_end s)) [
  | inl missed ↦ rw (drain-none (suc f) s missed) (drain_fuel (suc f) m (s ++ t) h k)
  | inr (i, found) ↦
      let fits = find_bound s i found in
      let cut = drop-append (i + 2) s t fits in
      let shorter = rest_shorter f (s ++ t) i (find-append s t i found) h in
      let ih = drain-append f m (drop (i + 2) s) t (rw cut at shorter) (
        omega
          (arith, length-drop (i + 2) s, length-append s t, length-append (drop (i + 2) s) t)) in
      rw (
        drain-some f (s ++ t) i (find-append s t i found),
        drain-some f s i found,
        take-append (i + 2) s t fits,
        cut,
        ih,
        keep_utf8-append (take (i + 2) s) (drain f (drop (i + 2) s)).0,
      )
]

drain_rest : (f : ℕ) (s : Text) → length s ≤ f → find_event_end (drain f s).1 ≡ none
drain_rest zero s h = elim (Option-cases (find_event_end s)) [
  | inl missed ↦ rw (drain-none 0 s missed) missed
  | inr (i, found) ↦ absurd (no_room s i h found)
]
drain_rest (suc f) s h = elim (Option-cases (find_event_end s)) [
  | inl missed ↦ rw (drain-none (suc f) s missed) missed
  | inr (i, found) ↦
      rw (drain-some f s i found) (drain_rest f (drop (i + 2) s) (rest_shorter f s i found h))
]

drain-length : (f : ℕ) (s : Text) → length (drain f s).1 ≤ length s
drain-length zero s = elim (Option-cases (find_event_end s)) [
  | inl missed ↦ rw (drain-none 0 s missed) (omega arith)
  | inr (i, found) ↦ unfold drain in omega arith
]
drain-length (suc f) s = elim (Option-cases (find_event_end s)) [
  | inl missed ↦ rw (drain-none (suc f) s missed) (omega arith)
  | inr (i, found) ↦
      rw (drain-some f s i found)
        (omega (arith, drain-length f (drop (i + 2) s), length-drop (i + 2) s))
]

-- Pushing two chunks one after the other gives the events and the rest of the buffer that pushing
-- them as one chunk gives.
pub push-push :
    (buffer a b : Text)
    → push buffer (a ++ b)
      ≡ ((push buffer a).0 ++ (push (push buffer a).1 b).0, (push (push buffer a).1 b).1)
unfolding push
push-push buffer a b =
    let s = buffer ++ a in
    let n = length (s ++ b) in
    let rest = (drain (length s) s).1 in
    let whole = drain-append n n s b (omega arith) (omega arith) in
    let first : drain n s ≡ drain (length s) s =
      drain_fuel n (length s) s (omega (arith, length-append s b)) (omega arith) in
    let second : drain n (rest ++ b) ≡ drain (length (rest ++ b)) (rest ++ b) =
      drain_fuel n (length (rest ++ b)) (rest ++ b)
        (omega (arith, length-append s b, length-append rest b, drain-length (length s) s))
        (omega arith) in
    rw (← append_assoc buffer a b) (rw (first, second) at whole)

-- After a push no two adjacent line feeds (bytes 10 10) are left in the buffer, so no event that
-- ends with them is: the loop ran to its end.
pub push_rest : (buffer chunk : Text) → find_event_end (push buffer chunk).1 ≡ none
unfolding push
push_rest buffer chunk = drain_rest (length (buffer ++ chunk)) (buffer ++ chunk) (omega arith)

-- One event as it was sent: its only blank line ends it.
abbrev pub IsFrame : Text → Type 0
IsFrame frame = (i : ℕ) × (find_event_end frame ≡ some i) × (length frame ≡ i + 2)

abbrev pub concat : List Text → Text
concat [] = []
concat (frame ∷ frames) = frame ++ concat frames

-- The frames that are valid UTF-8.
abbrev pub all_utf8 : List Text → List Text
all_utf8 [] = []
all_utf8 (frame ∷ frames) = keep_utf8 frame (all_utf8 frames)

find-take :
    (s : Text) (i : ℕ) → find_event_end s ≡ some i → find_event_end (take (suc (suc i)) s) ≡ some i
unfolding find_event_end
find-take [] i e = cc
find-take (a ∷ []) i e = cc
find-take (a ∷ b ∷ s) zero e = elim (Option-cases (find_event_end (b ∷ s))) [
  | inl missed ↦ ground arith
  | inr (j, found) ↦ ground arith
]
find-take (a ∷ b ∷ s) (suc i) e = elim (Option-cases (find_event_end (b ∷ s))) [
  | inl missed ↦ ground arith
  | inr (j, found) ↦ ground (arith, find-take (b ∷ s) i)
]

length-take : (n : ℕ) (s : Text) → n ≤ length s → length (take n s) ≡ n
length-take zero s h = refl
length-take (suc n) [] h = absurd (omega arith)
length-take (suc n) (a ∷ s) h = ap suc (length-take n s (omega arith))

take-IsFrame : (s : Text) (i : ℕ) → find_event_end s ≡ some i → IsFrame (take (i + 2) s)
take-IsFrame s i found =
    let two : suc (suc i) ≡ i + 2 = omega arith in
    (i, rw two at (find-take s i found), length-take (i + 2) s (find_bound s i found))

drain_frames :
    (f : ℕ) (s : Text)
    → length s ≤ f
    → (frames : List Text) × (s ≡ concat frames ++ (drain f s).1)
      × ((drain f s).0 ≡ all_utf8 frames)
      × All IsFrame frames
drain_frames zero s h = elim (Option-cases (find_event_end s)) [
  | inl missed ↦ let e = drain-none 0 s missed in ([], rw e refl, rw e refl, tt)
  | inr (i, found) ↦ absurd (no_room s i h found)
]
drain_frames (suc f) s h = elim (Option-cases (find_event_end s)) [
  | inl missed ↦ let e = drain-none (suc f) s missed in ([], rw e refl, rw e refl, tt)
  | inr (i, found) ↦
      let e = drain-some f s i found in
      let (frames, split, events, framed) =
        drain_frames f (drop (i + 2) s) (rest_shorter f s i found h) in
      (
        take (i + 2) s ∷ frames,
        rw e (
            sym (take-append-drop (i + 2) s)
            ∙ ap (λ l. take (i + 2) s ++ l) split
            ∙ sym (append_assoc (take (i + 2) s) (concat frames) (drain f (drop (i + 2) s)).1)),
        rw (e, events) refl,
        (take-IsFrame s i found, framed),
      )
]

-- A push loses, adds and reorders no byte: the buffer and the chunk, of any size, are a sequence
-- of frames, each ended by its only two adjacent line feeds (bytes 10 10), then the rest; the
-- events returned are the frames that are valid UTF-8.
pub push_frames :
    (buffer chunk : Text)
    → (frames : List Text) × (buffer ++ chunk ≡ concat frames ++ (push buffer chunk).1)
      × ((push buffer chunk).0 ≡ all_utf8 frames)
      × All IsFrame frames
unfolding push
push_frames buffer chunk = drain_frames (length (buffer ++ chunk)) (buffer ++ chunk) (omega arith)

-- Pushing nothing onto a buffer without an event changes nothing.
pub push_nil : (buffer : Text) → find_event_end buffer ≡ none → push buffer [] ≡ ([], buffer)
unfolding push
push_nil buffer h = rw (append-nil buffer) (drain-none (length buffer) buffer h)
