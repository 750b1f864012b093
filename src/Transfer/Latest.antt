-- ===== src/Transfer/Latest.antt =====
-- src/core/git/TransferProgress.cpp: the last of the redraws in a chunk is what is read.
use git_branch_manager.Base.Decimal.Reading.{read-to_string}
use git_branch_manager.Base.Decimal.{digits_within, to_string}
use git_branch_manager.Base.Text.{Bytes, codes, starts_with}
use git_branch_manager.Base.{
  ℕ, suc, ◌+◌, ◌/◌, ◌%◌, ◌^◌, ◌<◌, true, false, ◌||◌, List, [], ◌∷◌, ◌++◌, append_assoc, append-nil,
  ◌≡◌, refl, sym, ap, ◌∙◌, arith, Option, none, some, All, All-append, All-map, ltb, ◌==◌,
  Bool-cases, inl, inr,
}
use git_branch_manager.Diff.Scan.Numbers.{
  digits_within-AreDigits, to_string-AreDigits, leading_number-digit,
}
use git_branch_manager.Diff.Scan.{split_first, split_first-field, leading_number, is_digit}
use git_branch_manager.Transfer.{
  Phase, receiving_objects, resolving_deltas, TransferProgress, k_receiving, k_resolving,
  behind_digits, starts_with_digit, read_count, progress_of, read_total, read_counts, parse_line,
  or_else, latest_from, parse_transfer_progress,
}

-- One redraw: the text up to the bracket is the percentage, and a speed may follow behind it.
pub record Redraw : Type 0 where
  pub progress : TransferProgress
  pub percentage : Bytes
  pub tail : Bytes

abbrev pub label : Phase → Bytes
label receiving_objects = k_receiving
label resolving_deltas = k_resolving

abbrev counts_text : Redraw → Bytes
counts_text r = to_string r.progress.current ++ b'/' ∷ (to_string r.progress.total ++ b')' ∷ r.tail)

abbrev pub print_redraw : Redraw → Bytes
print_redraw r = label r.progress.phase ++ (r.percentage ++ b'(' ∷ counts_text r)

-- Redraws with a carriage return between them.
abbrev pub print_chunk : List Redraw → Bytes
print_chunk [] = []
print_chunk (r ∷ []) = print_redraw r
print_chunk (r ∷ s ∷ rs) = print_redraw r ++ b'\r' ∷ print_chunk (s ∷ rs)

abbrev pub last_progress : List Redraw → Option TransferProgress
last_progress [] = none
last_progress (r ∷ []) = some r.progress
last_progress (r ∷ s ∷ rs) = last_progress (s ∷ rs)

abbrev pub HasNoEnd : Bytes → Type 0
HasNoEnd = All (λ c. (c == b'\r' || c == b'\n') ≡ false)

-- The numbers are in range, the percentage has no bracket in it, and no text has a line end.
pub record IsRedraw (r : Redraw) : Type 0 where
  pub current : r.progress.current < 2 ^ 64
  pub total : r.progress.total < 2 ^ 64
  pub bracket : All (λ c. (c == b'(') ≡ false) r.percentage
  pub percentage : HasNoEnd r.percentage
  pub tail : HasNoEnd r.tail

first-digit :
    (ds : Bytes) (d c : ℕ) (rest : Bytes)
    → All (λ x. is_digit x ≡ true) (ds ++ d ∷ [])
    → starts_with_digit ((ds ++ d ∷ []) ++ c ∷ rest) ≡ true
first-digit [] d c rest h = h.0
first-digit (x ∷ ds) d c rest h = h.0

digits_within-first :
    (fuel n c : ℕ) (rest : Bytes)
    → starts_with_digit (digits_within (suc fuel) n ++ c ∷ rest) ≡ true
unfolding digits_within
digits_within-first fuel n c rest = elim (Bool-cases (ltb n 10)) [
  | inl small ↦ rw small (ground (arith, small))
  | inr big ↦
      let all = digits_within-AreDigits (suc fuel) n in
      rw big (first-digit (digits_within fuel (n / 10)) (b'0' + n % 10) c rest (rw big at all))
]

to_string-first : (n c : ℕ) (rest : Bytes) → starts_with_digit (to_string n ++ c ∷ rest) ≡ true
unfolding to_string
to_string-first n c rest = digits_within-first n n c rest

behind_digits-append :
    (ds : Bytes) (c : ℕ) (rest : Bytes)
    → All (λ x. is_digit x ≡ true) ds
    → is_digit c ≡ false
    → behind_digits (ds ++ c ∷ rest) ≡ c ∷ rest
unfolding behind_digits
behind_digits-append [] c rest h k = rw k refl
behind_digits-append (x ∷ ds) c rest h k = rw (h.0) (behind_digits-append ds c rest h.1 k)

leading_number-stop :
    (n c : ℕ) (rest : Bytes) → is_digit c ≡ false → leading_number n (c ∷ rest) ≡ n
unfolding leading_number
leading_number-stop n c rest h = rw h refl

read_count-to_string :
    (n c : ℕ) (rest : Bytes)
    → n < 2 ^ 64
    → is_digit c ≡ false
    → read_count (to_string n ++ c ∷ rest) c ≡ some (n, rest)
unfolding read_count
read_count-to_string n c rest h k =
    let value =
      read-to_string leading_number leading_number-digit n (c ∷ rest)
      ∙ leading_number-stop n c rest k in
    let behind = behind_digits-append (to_string n) c rest (to_string-AreDigits n) k in
    rw (to_string-first n c rest) (rw value (rw behind (ground (arith, h))))

read_total-print :
    (phase : Phase) (current total : ℕ) (tail : Bytes)
    → total < 2 ^ 64
    → read_total phase (some (current, to_string total ++ b')' ∷ tail))
      ≡ some (record { phase = phase; current = current; total = total })
read_total-print phase current total tail h =
    ap (progress_of phase current) (read_count-to_string total b')' tail h refl)

read_counts-print :
    (r : Redraw)
    → IsRedraw r
    → read_counts r.progress.phase (split_first (codes "(") (r.percentage ++ b'(' ∷ counts_text r))
      ≡ some r.progress
read_counts-print r h =
    ap (read_counts r.progress.phase)
      (split_first-field b'(' r.percentage (counts_text r) h.bracket)
    ∙ ap (read_total r.progress.phase) (
        read_count-to_string r.progress.current b'/' (to_string r.progress.total ++ b')' ∷ r.tail)
          h.current refl)
    ∙ read_total-print r.progress.phase r.progress.current r.progress.total r.tail h.total

parse_line-label :
    (phase : Phase) (text : Bytes)
    → parse_line (label phase ++ text) ≡ read_counts phase (split_first (codes "(") text)
unfolding parse_line starts_with
parse_line-label receiving_objects text = refl
parse_line-label resolving_deltas text = refl

parse_line-print : (r : Redraw) → IsRedraw r → parse_line (print_redraw r) ≡ some r.progress
parse_line-print r h = parse_line-label r.progress.phase _ ∙ read_counts-print r h

digits-HasNoEnd : (n : ℕ) → HasNoEnd (to_string n)
digits-HasNoEnd n =
    All-map (λ c. is_digit c ≡ true) (λ c. (c == b'\r' || c == b'\n') ≡ false) (to_string n)
      (λ c h. ground (arith, h)) (to_string-AreDigits n)

label-HasNoEnd : (phase : Phase) → HasNoEnd (label phase)
label-HasNoEnd receiving_objects = ground arith
label-HasNoEnd resolving_deltas = ground arith

join-HasNoEnd :
    (a b : Bytes) (c : ℕ)
    → HasNoEnd a
    → (c == b'\r' || c == b'\n') ≡ false
    → HasNoEnd b
    → HasNoEnd (a ++ c ∷ b)
join-HasNoEnd a b c h k l = All-append (λ x. (x == b'\r' || x == b'\n') ≡ false) a (c ∷ b) h (k, l)

print-HasNoEnd : (r : Redraw) → IsRedraw r → HasNoEnd (print_redraw r)
print-HasNoEnd r h =
    All-append (λ x. (x == b'\r' || x == b'\n') ≡ false) (label r.progress.phase) _
      (label-HasNoEnd r.progress.phase)
      (join-HasNoEnd r.percentage _ b'(' h.percentage refl (
        join-HasNoEnd (to_string r.progress.current) _ b'/' (digits-HasNoEnd r.progress.current)
          refl
          (join-HasNoEnd (to_string r.progress.total) r.tail b')' (digits-HasNoEnd r.progress.total)
            refl h.tail)))

latest_from-line :
    (line text : Bytes) (latest : Option TransferProgress) (rest : Bytes)
    → HasNoEnd text
    → latest_from line latest (text ++ b'\r' ∷ rest)
      ≡ latest_from [] (or_else (parse_line (line ++ text)) latest) rest
unfolding latest_from
latest_from-line line [] latest rest h =
    ap (λ l. latest_from [] (or_else (parse_line l) latest) rest) (sym (append-nil line))
latest_from-line line (c ∷ text) latest rest h = rw (h.0) (
    latest_from-line (line ++ c ∷ []) text latest rest h.1
    ∙ ap (λ l. latest_from [] (or_else (parse_line l) latest) rest)
        (append_assoc line (c ∷ []) text))

latest_from-last :
    (line text : Bytes) (latest : Option TransferProgress)
    → HasNoEnd text
    → latest_from line latest text ≡ or_else (parse_line (line ++ text)) latest
unfolding latest_from
latest_from-last line [] latest h = ap (λ l. or_else (parse_line l) latest) (sym (append-nil line))
latest_from-last line (c ∷ text) latest h = rw (h.0) (
    latest_from-last (line ++ c ∷ []) text latest h.1
    ∙ ap (λ l. or_else (parse_line l) latest) (append_assoc line (c ∷ []) text))

latest_from-chunk :
    (r : Redraw) (rs : List Redraw) (latest : Option TransferProgress)
    → All IsRedraw (r ∷ rs)
    → latest_from [] latest (print_chunk (r ∷ rs)) ≡ last_progress (r ∷ rs)
latest_from-chunk r [] latest h =
    latest_from-last [] (print_redraw r) latest (print-HasNoEnd r h.0)
    ∙ ap (λ p. or_else p latest) (parse_line-print r h.0)
latest_from-chunk r (s ∷ rs) latest h =
    latest_from-line [] (print_redraw r) latest (print_chunk (s ∷ rs)) (print-HasNoEnd r h.0)
    ∙ ap (λ p. latest_from [] (or_else p latest) (print_chunk (s ∷ rs))) (parse_line-print r h.0)
    ∙ latest_from-chunk s rs (some r.progress) h.1

nothing-read : latest_from [] none [] ≡ none
unfolding latest_from parse_line starts_with
nothing-read = refl

-- Of a chunk of redraws, the numbers of the last one are read, whatever the percentages and speeds
-- printed beside them; of an empty chunk nothing. The numbers are in range, no percentage has a
-- bracket in it, and no text has a line end.
pub parse_transfer_progress-print :
    (rs : List Redraw)
    → All IsRedraw rs
    → parse_transfer_progress (print_chunk rs) ≡ last_progress rs
unfolding parse_transfer_progress
parse_transfer_progress-print [] h = nothing-read
parse_transfer_progress-print (r ∷ rs) h = latest_from-chunk r rs none h
