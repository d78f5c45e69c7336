-- ===== src/Subscription/Client/Chunks.antt =====
-- The entries that a client hands over, from the chunks of a stream.
use mathlib.Core.List.{append-nil, append_assoc}
use offckb.Base.{
  ℕ, ◌≡◌, refl, ap, sym, ◌∙◌, false, Option, none, some, List, [], ◌∷◌, ◌++◌, eqb, Bool-cases, inl,
  inr,
}
use offckb.Base.Text.{Text, trim, is_empty}
use offckb.Logs.{split_lines, cons_first}
use offckb.Logs.Parts.{with_lines, split_lines-append}
use offckb.Subscription.{
  Platform, CkbLogEntry, Message, logged, subscribed, entry_from, entries_of,
  parse_subscription_message,
}
use offckb.Subscription.Client.{Client, on_data}

-- The callbacks of the chunks, in turn.
unfoldable pub receive_all : Platform → List (List ℕ) → Client → Client
unfolding on_data
receive_all p [] s = s
receive_all p (chunk ∷ chunks) s = receive_all p chunks (on_data p chunk s)

unfoldable pub decoded : Platform → List (List ℕ) → Text
decoded p [] = []
decoded p (chunk ∷ chunks) = p.to_text chunk ++ decoded p chunks

entry_from-append :
    (m : Option Message) (xs ys : List CkbLogEntry)
    → entry_from m (xs ++ ys) ≡ entry_from m xs ++ ys
entry_from-append none xs ys = refl
entry_from-append (some (logged e)) xs ys = refl
entry_from-append (some (subscribed id)) xs ys = refl

entries_of-append :
    (p : Platform) (xs ys : List Text)
    → entries_of p (xs ++ ys) ≡ entries_of p xs ++ entries_of p ys
unfolding entries_of
entries_of-append p [] ys = refl
entries_of-append p (x ∷ xs) ys = elim (Bool-cases (is_empty (trim x))) [
  | inl blank ↦ rw blank (entries_of-append p xs ys)
  | inr line ↦ rw line (
      ap (entry_from (parse_subscription_message p x)) (entries_of-append p xs ys)
      ∙ entry_from-append (parse_subscription_message p x) (entries_of p xs) (entries_of p ys))
]

-- A text without a line break.
abbrev pub IsPartial : Text → Type 0
IsPartial s = split_lines s ≡ ([], s)

cons_first-IsPartial :
    (c : ℕ) (parts : List Text × Text)
    → eqb c 10 ≡ false
    → IsPartial parts.1
    → IsPartial (cons_first c parts).1
unfolding split_lines
cons_first-IsPartial c ([], rest) b h = rw b (ap (cons_first c) h)
cons_first-IsPartial c (line ∷ lines, rest) b h = h

split_lines-IsPartial : (s : Text) → IsPartial (split_lines s).1
unfolding split_lines
split_lines-IsPartial [] = refl
split_lines-IsPartial (c ∷ s) = elim (Bool-cases (eqb c 10)) [
  | inl b ↦ rw b (split_lines-IsPartial s)
  | inr b ↦ rw b (cons_first-IsPartial c (split_lines s) b (split_lines-IsPartial s))
]

receive_all-decoded :
    (p : Platform) (chunks : List (List ℕ)) (s : Client)
    → IsPartial s.buffer
    → (receive_all p chunks s).entries
      ≡ s.entries ++ entries_of p (split_lines (s.buffer ++ decoded p chunks)).0
unfolding receive_all decoded entries_of with_lines
receive_all-decoded p [] s h =
    sym (append-nil s.entries)
    ∙ ap (λ (r : List Text × Text). s.entries ++ entries_of p r.0)
        (sym h ∙ ap split_lines (sym (append-nil s.buffer)))
receive_all-decoded p (chunk ∷ chunks) s h =
    let first = s.buffer ++ p.to_text chunk in
    let parts = split_lines first in
    receive_all-decoded p chunks (on_data p chunk s) (split_lines-IsPartial first)
    ∙ append_assoc s.entries (entries_of p parts.0)
        (entries_of p (split_lines (parts.1 ++ decoded p chunks)).0)
    ∙ ap (λ es. s.entries ++ es)
        (sym (entries_of-append p parts.0 (split_lines (parts.1 ++ decoded p chunks)).0)
          ∙ ap (λ (r : List Text × Text). entries_of p r.0)
              (sym (split_lines-append first (decoded p chunks))
                ∙ ap split_lines (append_assoc s.buffer (p.to_text chunk) (decoded p chunks))))

-- The bytes of the stream.
abbrev pub all_bytes : List (List ℕ) → List ℕ
all_bytes [] = []
all_bytes (chunk ∷ chunks) = chunk ++ all_bytes chunks

-- When no cut of the stream of a connection splits a character, so that the texts of the chunks make
-- up the text of all its bytes, the client hands over the entries of the complete lines of that
-- text, in order, after the ones before, whatever the cuts. The kept rest of the line before is
-- without a line break.
pub receive_all-entries :
    (p : Platform) (chunks : List (List ℕ)) (s : Client)
    → IsPartial s.buffer
    → decoded p chunks ≡ p.to_text (all_bytes chunks)
    → (receive_all p chunks s).entries
      ≡ s.entries ++ entries_of p (split_lines (s.buffer ++ p.to_text (all_bytes chunks))).0
receive_all-entries p chunks s h whole =
    receive_all-decoded p chunks s h
    ∙ ap (λ t. s.entries ++ entries_of p (split_lines (s.buffer ++ t)).0) whole
