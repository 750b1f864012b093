-- ===== src/Text/Traits/Redraws.antt =====
-- src/core/git/TextTraits.cpp: what `collapseCarriageReturns` leaves.
use git_branch_manager.Base.{
  ℕ, Bool, true, false, ◌||◌, [], ◌∷◌, ◌++◌, ◌≡◌, refl, arith, ◌==◌, if◌then◌else◌, append-nil,
  append_assoc, ap, sym, ◌∙◌, Bool-cases, inl, inr, All,
}
use git_branch_manager.Base.Text.{Bytes}
use git_branch_manager.Text.Traits.{
  next_is_newline, is_redraw, collapse_line, collapse_carriage_returns,
}

-- A carriage return that no line feed follows.
abbrev pub has_redraw : Bytes → Bool
has_redraw [] = false
has_redraw (c ∷ cs) = is_redraw c cs || has_redraw cs

abbrev newline_of : Bytes → Bytes
newline_of cs = if next_is_newline cs then b'\n' ∷ [] else []

has_redraw-append : (a b : Bytes) → has_redraw a ≡ false → has_redraw (a ++ b) ≡ has_redraw b
has_redraw-append [] b h = refl
has_redraw-append (c ∷ []) b h = ground (arith, h)
has_redraw-append (c ∷ d ∷ a) b h = ground (arith, h, has_redraw-append (d ∷ a) b)

has_redraw-line :
    (a r : Bytes) → has_redraw (a ++ b'\n' ∷ r) ≡ (has_redraw (a ++ b'\n' ∷ []) || has_redraw r)
has_redraw-line [] r = ground arith
has_redraw-line (c ∷ []) r = ground arith
has_redraw-line (c ∷ d ∷ a) r = ground (arith, has_redraw-line (d ∷ a) r)

newline_of-clean : (cs : Bytes) → has_redraw (newline_of cs) ≡ false
newline_of-clean [] = refl
newline_of-clean (c ∷ cs) = ground arith

-- One more byte that is no redraw.
has_redraw-snoc :
    (line : Bytes) (c : ℕ) (cs : Bytes)
    → has_redraw line ≡ false
    → is_redraw c cs ≡ false
    → has_redraw ((line ++ c ∷ []) ++ newline_of cs) ≡ false
has_redraw-snoc line c [] h k =
    ap has_redraw (append_assoc line (c ∷ []) [])
    ∙ has_redraw-append line (c ∷ []) h
    ∙ ground (arith, k)
has_redraw-snoc line c (d ∷ cs) h k =
    ap has_redraw (append_assoc line (c ∷ []) (newline_of (d ∷ cs)))
    ∙ has_redraw-append line (c ∷ newline_of (d ∷ cs)) h
    ∙ ground (arith, k)

abbrev kept_part : Bool → Bytes → Bytes
kept_part redraw line = if redraw then [] else line

kept-clean :
    (redraw : Bool) (line cs : Bytes)
    → has_redraw (line ++ newline_of cs) ≡ false
    → has_redraw (kept_part redraw line ++ newline_of cs) ≡ false
kept-clean true line cs h = newline_of-clean cs
kept-clean false line cs h = h

-- The three cases of the loop.
collapse_line-newline :
    (line : Bytes) (redraw : Bool) (c : ℕ) (cs : Bytes)
    → (c == b'\n') ≡ true
    → collapse_line line redraw (c ∷ cs)
      ≡ kept_part redraw line ++ b'\n' ∷ collapse_line [] false cs
unfolding collapse_line
collapse_line-newline line redraw c cs e =
    let same : c ≡ b'\n' = ground (arith, e) in rw (same, collapse_line) refl

collapse_line-redraw :
    (line : Bytes) (redraw : Bool) (c : ℕ) (cs : Bytes)
    → is_redraw c cs ≡ true
    → collapse_line line redraw (c ∷ cs) ≡ collapse_line line true cs
unfolding collapse_line
collapse_line-redraw line redraw c cs e = rw (e, collapse_line) refl

collapse_line-byte :
    (line : Bytes) (redraw : Bool) (c : ℕ) (cs : Bytes)
    → is_redraw c cs ≡ false
    → (c == b'\n') ≡ false
    → collapse_line line redraw (c ∷ cs) ≡ collapse_line (kept_part redraw line ++ c ∷ []) false cs
unfolding collapse_line
collapse_line-byte line redraw c cs e k = rw (e, k, collapse_line) refl

-- Before a byte that is no line feed.
before-byte :
    (line : Bytes) (c : ℕ) (cs : Bytes)
    → (c == b'\n') ≡ false
    → has_redraw (line ++ newline_of (c ∷ cs)) ≡ false
    → has_redraw line ≡ false
before-byte line c cs k h = ground (arith, k, h, append-nil line)

before-newline :
    (line : Bytes) (c : ℕ) (cs : Bytes)
    → (c == b'\n') ≡ true
    → has_redraw (line ++ newline_of (c ∷ cs)) ≡ false
    → has_redraw (line ++ b'\n' ∷ []) ≡ false
before-newline line c cs k h = ground (arith, k, h)

collapse_line-clean :
    (line : Bytes) (redraw : Bool) (text : Bytes)
    → has_redraw (line ++ newline_of text) ≡ false
    → has_redraw (collapse_line line redraw text) ≡ false
unfolding collapse_line
collapse_line-clean line redraw [] h = rw (append-nil line) at h
collapse_line-clean line redraw (c ∷ cs) h =
    let kept = kept_part redraw line in
    let clean = kept-clean redraw line (c ∷ cs) h in
    elim (Bool-cases (c == b'\n')) [
      | inl ends ↦
          ap has_redraw (collapse_line-newline line redraw c cs ends)
          ∙ has_redraw-line kept (collapse_line [] false cs)
          ∙ ground (
            arith,
            before-newline kept c cs ends clean,
            collapse_line-clean [] false cs (newline_of-clean cs),
          )
      | inr goes_on ↦ elim (Bool-cases (is_redraw c cs)) [
        | inl again ↦
            ap has_redraw (collapse_line-redraw line redraw c cs again)
            ∙ collapse_line-clean line true cs
                (ground (arith, again, append-nil line, before-byte line c cs goes_on h))
        | inr byte ↦
            ap has_redraw (collapse_line-byte line redraw c cs byte goes_on)
            ∙ collapse_line-clean (kept ++ c ∷ []) false cs
                (has_redraw-snoc kept c cs (before-byte kept c cs goes_on clean) byte)
      ]
    ]

collapse_line-same :
    (line text : Bytes) → has_redraw text ≡ false → collapse_line line false text ≡ line ++ text
unfolding collapse_line
collapse_line-same line [] h = sym (append-nil line)
collapse_line-same line (c ∷ cs) h =
    let byte : is_redraw c cs ≡ false = ground (arith, h) in
    let rest : has_redraw cs ≡ false = ground (arith, h) in
    elim (Bool-cases (c == b'\n')) [
      | inl ends ↦
          let same : c ≡ b'\n' = ground (arith, ends) in
          collapse_line-newline line false c cs ends
          ∙ ap (λ x. line ++ b'\n' ∷ x) (collapse_line-same [] cs rest)
          ∙ ap (λ x. line ++ x ∷ cs) (sym same)
      | inr goes_on ↦
          collapse_line-byte line false c cs byte goes_on
          ∙ collapse_line-same (line ++ c ∷ []) cs rest
          ∙ append_assoc line (c ∷ []) cs
    ]

-- What is collapsed holds no redraw any more, and a text without one stays as it is: collapsing
-- twice is collapsing once.
pub collapse_carriage_returns-twice :
    (text : Bytes)
    → (has_redraw (collapse_carriage_returns text) ≡ false)
      × (collapse_carriage_returns (collapse_carriage_returns text)
          ≡ collapse_carriage_returns text)
unfolding collapse_carriage_returns
collapse_carriage_returns-twice text =
    let clean = collapse_line-clean [] false text (newline_of-clean text) in
    (clean, collapse_line-same [] (collapse_line [] false text) clean)

-- A text without a redraw, "\r\n" included, is kept.
pub collapse_carriage_returns-same :
    (text : Bytes) → has_redraw text ≡ false → collapse_carriage_returns text ≡ text
unfolding collapse_carriage_returns
collapse_carriage_returns-same text h = collapse_line-same [] text h

plain_line :
    (line old rest : Bytes)
    → All (λ b. (b == b'\r') ≡ false) old
    → All (λ b. (b == b'\n') ≡ false) old
    → collapse_line line false (old ++ rest) ≡ collapse_line (line ++ old) false rest
plain_line line [] rest h k = ap (λ x. collapse_line x false rest) (sym (append-nil line))
plain_line line (c ∷ old) rest h k =
    collapse_line-byte line false c (old ++ rest) (ground (arith, h.0)) k.0
    ∙ plain_line (line ++ c ∷ []) old rest h.1 k.1
    ∙ ap (λ x. collapse_line x false rest) (append_assoc line (c ∷ []) old)

forgets :
    (line : Bytes) (b : ℕ) (rest : Bytes)
    → (b == b'\r') ≡ false
    → collapse_line line true (b ∷ rest) ≡ collapse_line [] false (b ∷ rest)
unfolding collapse_line
forgets line b rest h = ground (arith, h)

-- A state that git has printed, with no line end in it, is gone once the next one begins.
pub collapse_carriage_returns-redraw :
    (old : Bytes) (b : ℕ) (rest : Bytes)
    → All (λ c. (c == b'\r') ≡ false) old
    → All (λ c. (c == b'\n') ≡ false) old
    → (b == b'\r') ≡ false
    → (b == b'\n') ≡ false
    → collapse_carriage_returns (old ++ b'\r' ∷ b ∷ rest) ≡ collapse_carriage_returns (b ∷ rest)
unfolding collapse_carriage_returns
collapse_carriage_returns-redraw old b rest h k r n =
    plain_line [] old (b'\r' ∷ b ∷ rest) h k
    ∙ collapse_line-redraw old false b'\r' (b ∷ rest) (ground (arith, n))
    ∙ forgets old b rest r
