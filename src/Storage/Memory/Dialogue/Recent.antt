-- ===== src/Storage/Memory/Dialogue/Recent.antt =====
-- Which turns `recent_dialogue` of src/storage/memory/dialogue.rs carries along.
use riddle.Prelude.{
  ℕ, ◌+◌, ◌≤◌, ◌<◌, ◌≡◌, refl, sym, ap, ◌∙◌, ◌⊎◌, Bool, true, false, List, [], ◌∷◌, ◌++◌, ltb,
  length, length-append, length-reverse, map, map-reverse, take, drop, take-drop, reverse,
  reverse-cons, reverse-append, reverse-reverse, filter_by, filter_by-reverse, zero, suc, arith,
  Bool-cases, inl, inr, append_assoc,
}
use riddle.Text.{Text}
use riddle.Text.Decimal.{saturating_add}
use riddle.Storage.Memory.{Entry, MemoryStore}
use riddle.Storage.Memory.Dialogue.{
  turn, turn_bytes, recent_turns, recent_dialogue, in_dialogue, dialogue_floor, max_context_bytes,
  max_dialogue_field_bytes,
}
use riddle.Storage.Memory.Dialogue.Cutting.{truncate_utf8-IsFront}

abbrev pub total_bytes : List Entry → ℕ
total_bytes [] = 0
total_bytes (e ∷ es) = turn_bytes e + total_bytes es

turn_bytes_small : (e : Entry) → turn_bytes e ≤ 16384
turn_bytes_small e =
    let transcript = (truncate_utf8-IsFront e.transcript max_dialogue_field_bytes).0 in
    let reply = (truncate_utf8-IsFront e.reply max_dialogue_field_bytes).0 in ground arith

heavy_turn :
    (bytes more : ℕ)
    → more ≤ 16384
    → bytes ≤ max_context_bytes
    → ltb max_context_bytes (saturating_add bytes more) ≡ true
    → max_context_bytes < bytes + 0 + more
heavy_turn bytes more h k l = ground arith

light_turn :
    (bytes more : ℕ)
    → more ≤ 16384
    → bytes ≤ max_context_bytes
    → ltb max_context_bytes (saturating_add bytes more) ≡ false
    → bytes + more ≤ max_context_bytes
light_turn bytes more h k l = ground arith

-- What the loop takes of a list, newest first, and why it stops.
record Taken (bytes : ℕ) (entries picked rest : List Entry) : Type 0 where
  parts : entries ≡ picked ++ rest
  turns : recent_turns bytes entries ≡ map turn picked
  small : bytes + total_bytes picked ≤ max_context_bytes
  stops :
      (rest ≡ [])
      ⊎ (e : Entry) × (es : List Entry) × (rest ≡ e ∷ es)
        × (max_context_bytes < bytes + total_bytes picked + turn_bytes e)

recent_turns-Taken :
    (bytes : ℕ) (entries : List Entry)
    → bytes ≤ max_context_bytes
    → (picked rest : List Entry) × Taken bytes entries picked rest
unfolding recent_turns
recent_turns-Taken bytes [] h =
    ([], [], record { parts = refl; turns = refl; small = omega arith; stops = inl refl })
recent_turns-Taken bytes (e ∷ es) h =
    let light = turn_bytes_small e in
    elim (Bool-cases (ltb max_context_bytes (saturating_add bytes (turn_bytes e)))) [
      | inl over ↦ (
        [],
        e ∷ es,
        record {
          parts = refl;
          turns = rw over refl;
          small = omega arith;
          stops = inr (e, es, refl, heavy_turn bytes (turn_bytes e) light h over);
        },
      )
      | inr fits ↦
          let (picked, rest, t) =
            recent_turns-Taken (bytes + turn_bytes e) es
              (light_turn bytes (turn_bytes e) light h fits) in
          (
            e ∷ picked,
            rest,
            record {
              parts = ap (λ l. e ∷ l) t.parts;
              turns = rw fits (ap (λ l. turn e ∷ l) t.turns);
              small = omega (arith, t.small);
              stops = elim t.stops [
                | inl none_left ↦ inl none_left
                | inr (e', es', left, heavy) ↦ inr (e', es', left, omega (arith, heavy))
              ];
            },
          )
    ]

-- A list is what was taken from its front and the rest.
take_parts :
    (n : ℕ) (entries picked rest : List Entry)
    → take n entries ≡ picked ++ rest
    → entries ≡ picked ++ (rest ++ drop n entries)
take_parts n entries picked rest h =
    sym (take-drop n entries)
    ∙ ap (λ l. l ++ drop n entries) h
    ∙ append_assoc picked rest (drop n entries)

length-take_le : (n : ℕ) (entries : List Entry) → length (take n entries) ≤ n
unfolding take
length-take_le zero entries = omega arith
length-take_le (suc n) [] = omega arith
length-take_le (suc n) (e ∷ entries) = omega (arith, length-take_le n entries)

drop_or_full :
    (n : ℕ) (entries : List Entry) → (drop n entries ≡ []) ⊎ (length (take n entries) ≡ n)
unfolding take drop
drop_or_full zero entries = inr refl
drop_or_full (suc n) [] = inl refl
drop_or_full (suc n) (e ∷ entries) = elim (drop_or_full n entries) [
  | inl done ↦ inl done
  | inr full ↦ inr (ap suc full)
]

total_bytes-append : (xs ys : List Entry) → total_bytes (xs ++ ys) ≡ total_bytes xs + total_bytes ys
total_bytes-append [] ys = omega arith
total_bytes-append (x ∷ xs) ys = omega (arith, total_bytes-append xs ys)

total_bytes-reverse : (xs : List Entry) → total_bytes (reverse xs) ≡ total_bytes xs
total_bytes-reverse [] = refl
total_bytes-reverse (x ∷ xs) =
    rw (reverse-cons x xs)
      (omega (arith, total_bytes-append (reverse xs) (x ∷ []), total_bytes-reverse xs))

-- The pages of a conversation, oldest first.
abbrev pub dialogue_pages : Bool → MemoryStore → List Entry
dialogue_pages read_fails s = filter_by (in_dialogue (dialogue_floor read_fails s)) s.entries

-- `turns` are the newest of `pages`, in their order: at most `n`, within the limit of the context, and
-- no fewer than these two bounds allow.
pub record Newest (n : ℕ) (pages : List Entry) (turns : List (Text × Text)) : Type 0 where
  pub older : List Entry
  pub chosen : List Entry
  pub parts : pages ≡ older ++ chosen
  pub shown : turns ≡ map turn chosen
  pub few : length chosen ≤ n
  pub small : total_bytes chosen ≤ max_context_bytes
  pub full :
      (older ≡ [])
      ⊎ (length chosen ≡ n)
      ⊎ (e : Entry) × (es : List Entry) × (older ≡ es ++ e ∷ [])
        × (max_context_bytes < total_bytes chosen + turn_bytes e)

reverse_pages :
    (pages picked rest : List Entry)
    → reverse pages ≡ picked ++ rest
    → pages ≡ reverse rest ++ reverse picked
reverse_pages pages picked rest h =
    sym (reverse-reverse pages) ∙ ap reverse h ∙ reverse-append picked rest

module _ (n : ℕ) (pages picked rest : List Entry)
    (t : Taken 0 (take n (reverse pages)) picked rest) where
  left_over : List Entry
  left_over = rest ++ drop n (reverse pages)

  picked_length : length picked + length rest ≡ length (take n (reverse pages))
  picked_length = sym (ap length t.parts ∙ length-append picked rest)

  stops_full :
      (reverse left_over ≡ [])
      ⊎ (length (reverse picked) ≡ n)
      ⊎ (e : Entry) × (es : List Entry) × (reverse left_over ≡ es ++ e ∷ [])
        × (max_context_bytes < total_bytes (reverse picked) + turn_bytes e)
  unfolding left_over
  stops_full = elim t.stops [
    | inr (e, es, left, heavy) ↦ inr (
        inr (
          e,
          reverse (es ++ drop n (reverse pages)),
          ap (λ l. reverse (l ++ drop n (reverse pages))) left
              ∙ reverse-cons e (es ++ drop n (reverse pages)),
          omega (arith, heavy, total_bytes-reverse picked),
        ))
    | inl nothing ↦ elim (drop_or_full n (reverse pages)) [
      | inl end ↦
          inl (ap (λ l. reverse (l ++ drop n (reverse pages))) nothing ∙ ap (λ l. reverse l) end)
      | inr all ↦
          let none_left = ap length nothing in
          inr (inl (omega (arith, picked_length, none_left, all, length-reverse picked)))
    ]
  ]

  taken-Newest : Newest n pages (reverse (recent_turns 0 (take n (reverse pages))))
  unfolding left_over
  taken-Newest = record {
    older = reverse left_over;
    chosen = reverse picked;
    parts = reverse_pages pages picked left_over (take_parts n (reverse pages) picked rest t.parts);
    shown = ap reverse t.turns ∙ sym (map-reverse turn picked);
    few = omega (arith, picked_length, length-reverse picked, length-take_le n (reverse pages));
    small = omega (arith, t.small, total_bytes-reverse picked);
    full = stops_full;
  }

-- `recent_dialogue` shows the newest pages above the boundary that have a transcript, each cut to the
-- limit of a field, oldest first: at most `n` of them, at most 256 KiB together, and it leaves out an
-- older one only if `n` are shown or the next one would not fit.
pub recent_dialogue-Newest :
    (read_fails : Bool) (n : ℕ) (s : MemoryStore)
    → Newest n (dialogue_pages read_fails s) (recent_dialogue read_fails n s)
unfolding recent_dialogue
recent_dialogue-Newest read_fails n s =
    let pages = dialogue_pages read_fails s in
    let (picked, rest, t) = recent_turns-Taken 0 (take n (reverse pages)) (omega arith) in
    rw (filter_by-reverse (in_dialogue (dialogue_floor read_fails s)) s.entries)
      (taken-Newest n pages picked rest t)
