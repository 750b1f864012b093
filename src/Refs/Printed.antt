-- ===== src/Refs/Printed.antt =====
-- src/core/git/RefStore.cpp: the lines that git prints for the format of `load`.
use git_branch_manager.Base.Text.{Bytes, codes, bytes_eq}
use git_branch_manager.Base.{
  ℕ, ◌<◌, Bool, true, false, not, List, [], ◌∷◌, ◌++◌, append_assoc, append-nil, ◌≡◌, ◌⊎◌, inl, inr,
  refl, sym, ap, ◌∙◌, arith, Option, none, some, length, All, ltb, ◌==◌, if◌then◌else◌, is_empty,
}
use git_branch_manager.Graph.ObjectId.Hex.{AreBytes, from_hex-hex}
use git_branch_manager.Graph.ObjectId.{ObjectId, null_id, hex, hex_bytes}
use git_branch_manager.Refs.{
  RefInfo, kind_for_ref, ref_display_name, parse_track, split_from, split_fields, k_field_separator,
  plain_ref, peel, ref_of, parse_line, parse_lines, consed,
}

-- A ref as git knows it. An annotated tag has an object of its own and points at `target`.
pub record Ref : Type 0 where
  pub full_name : Bytes
  pub is_annotated : Bool
  pub object_type : Bytes
  pub tag_object : ObjectId
  pub target : ObjectId
  pub upstream : Bytes
  pub track : Bytes
  pub is_head : Bool
  pub worktree_path : Bytes
  pub symref : Bytes

abbrev type_text : Bool → Ref → Bytes
type_text is_annotated r = if is_annotated then codes "tag" else r.object_type

abbrev fields_behind_type : Bool → Bool → Ref → List Bytes
fields_behind_type is_annotated is_head r =
    (if is_annotated then hex r.tag_object else hex r.target)
    ∷ (if is_annotated then hex r.target else [])
    ∷ r.upstream
    ∷ r.track
    ∷ (if is_head then codes "*" else codes " ")
    ∷ r.worktree_path
    ∷ r.symref
    ∷ []

abbrev fields_with : Bool → Bool → Ref → List Bytes
fields_with is_annotated is_head r =
    r.full_name ∷ type_text is_annotated r ∷ fields_behind_type is_annotated is_head r

abbrev pub printed_fields : Ref → List Bytes
printed_fields r = fields_with r.is_annotated r.is_head r

-- Fields with a separator between them.
abbrev pub join_with : ℕ → List Bytes → Bytes
join_with separator [] = []
join_with separator (f ∷ []) = f
join_with separator (f ∷ g ∷ fields) = f ++ separator ∷ join_with separator (g ∷ fields)

abbrev pub print_ref : Ref → Bytes
print_ref r = join_with k_field_separator (printed_fields r)

abbrev pub print_refs : List Ref → List Bytes
print_refs [] = []
print_refs (r ∷ rs) = print_ref r ∷ print_refs rs

abbrev info_with : Bool → Bool → Ref → RefInfo
info_with is_annotated is_head r = record {
  full_name = r.full_name;
  short_name = ref_display_name r.full_name;
  kind = kind_for_ref r.full_name;
  target = r.target;
  tag_object = if is_annotated then r.tag_object else null_id;
  upstream = r.upstream;
  ahead = 0;
  behind = 0;
  has_tracking_info = false;
  is_gone = false;
  is_head = is_head;
  is_symbolic = not (is_empty r.symref);
  worktree_path = r.worktree_path;
}

-- What the program makes of it.
abbrev pub info_of : Ref → RefInfo
info_of r = parse_track r.track (info_with r.is_annotated r.is_head r)

abbrev pub infos_of : List Ref → List RefInfo
infos_of [] = []
infos_of (r ∷ rs) = info_of r ∷ infos_of rs

abbrev pub IsField : Bytes → Type 0
IsField = All (λ c. (c == k_field_separator) ≡ false)

abbrev pub IsId : ObjectId → Type 0
IsId id = AreBytes id.bytes × ((length id.bytes ≡ 20) ⊎ (length id.bytes ≡ 32))

-- A ref with no separator in its texts, whole ids, and an object type of its own.
pub record IsRef (r : Ref) : Type 0 where
  pub named : is_empty r.full_name ≡ false
  pub type : bytes_eq r.object_type (codes "tag") ≡ false
  pub tag_object : IsId r.tag_object
  pub target : IsId r.target
  pub name_field : IsField r.full_name
  pub type_field : IsField r.object_type
  pub upstream_field : IsField r.upstream
  pub track_field : IsField r.track
  pub worktree_field : IsField r.worktree_path
  pub symref_field : IsField r.symref

split_from-field :
    (separator : ℕ) (start field rest : Bytes)
    → All (λ c. (c == separator) ≡ false) field
    → split_from separator start (field ++ separator ∷ rest)
      ≡ (start ++ field) ∷ split_from separator [] rest
unfolding split_from
split_from-field separator start [] rest h =
    let same : (separator == separator) ≡ true = ground arith in
    rw same (ap (λ f. f ∷ split_from separator [] rest) (sym (append-nil start)))
split_from-field separator start (c ∷ field) rest h = rw (h.0) (
    split_from-field separator (start ++ c ∷ []) field rest h.1
    ∙ ap (λ f. f ∷ split_from separator [] rest) (append_assoc start (c ∷ []) field))

split_from-last :
    (separator : ℕ) (start field : Bytes)
    → All (λ c. (c == separator) ≡ false) field
    → split_from separator start field ≡ (start ++ field) ∷ []
unfolding split_from
split_from-last separator start [] h = ap (λ f. f ∷ []) (sym (append-nil start))
split_from-last separator start (c ∷ field) h = rw (h.0) (
    split_from-last separator (start ++ c ∷ []) field h.1
    ∙ ap (λ f. f ∷ []) (append_assoc start (c ∷ []) field))

split_from-join :
    (separator : ℕ) (f : Bytes) (fields : List Bytes)
    → All (All (λ c. (c == separator) ≡ false)) (f ∷ fields)
    → split_from separator [] (join_with separator (f ∷ fields)) ≡ f ∷ fields
split_from-join separator f [] h = split_from-last separator [] f h.0
split_from-join separator f (g ∷ fields) h =
    split_from-field separator [] f (join_with separator (g ∷ fields)) h.0
    ∙ ap (λ l. f ∷ l) (split_from-join separator g fields h.1)

hex_bytes-IsField : (bs : Bytes) → AreBytes bs → IsField (hex_bytes bs)
unfolding hex_bytes
hex_bytes-IsField [] h = tt
hex_bytes-IsField (b ∷ bs) h =
    (ground (arith, h.0), (ground (arith, h.0), hex_bytes-IsField bs h.1))

hex-IsField : (id : ObjectId) → IsId id → IsField (hex id)
unfolding hex
hex-IsField id h = hex_bytes-IsField id.bytes h.0

pick-IsField : (b : Bool) (f g : Bytes) → IsField f → IsField g → IsField (if b then f else g)
pick-IsField true f g h k = h
pick-IsField false f g h k = k

printed-AreFields : (r : Ref) → IsRef r → All IsField (printed_fields r)
printed-AreFields r h = (
  h.name_field,
  (
    pick-IsField r.is_annotated (codes "tag") r.object_type (ground arith) h.type_field,
    (
      pick-IsField r.is_annotated (hex r.tag_object) (hex r.target)
          (hex-IsField r.tag_object h.tag_object) (hex-IsField r.target h.target),
      (
        pick-IsField r.is_annotated (hex r.target) [] (hex-IsField r.target h.target) tt,
        (
          h.upstream_field,
          (
            h.track_field,
            (
              pick-IsField r.is_head (codes "*") (codes " ") (ground arith) (ground arith),
              (h.worktree_field, (h.symref_field, tt)),
            ),
          ),
        ),
      ),
    ),
  ),
)

hex_bytes-nonempty : (bs : Bytes) → 0 < length bs → is_empty (hex_bytes bs) ≡ false
unfolding hex_bytes
hex_bytes-nonempty [] h = absurd (omega arith)
hex_bytes-nonempty (b ∷ bs) h = refl

hex-nonempty : (id : ObjectId) → IsId id → is_empty (hex id) ≡ false
unfolding hex
hex-nonempty id h = elim h.1 [
  | inl short ↦ hex_bytes-nonempty id.bytes (omega (arith, short))
  | inr long ↦ hex_bytes-nonempty id.bytes (omega (arith, long))
]

peel-fields :
    (annotated head : Bool) (r : Ref)
    → IsRef r
    → peel (fields_with annotated head r) (plain_ref (fields_with annotated head r))
      ≡ info_with annotated head r
unfolding bytes_eq
peel-fields true true r h = rw (hex-nonempty r.target h.target) (
    rw (from_hex-hex r.target h.target.0 h.target.1)
      (rw (from_hex-hex r.tag_object h.tag_object.0 h.tag_object.1) refl))
peel-fields true false r h = rw (hex-nonempty r.target h.target) (
    rw (from_hex-hex r.target h.target.0 h.target.1)
      (rw (from_hex-hex r.tag_object h.tag_object.0 h.tag_object.1) refl))
peel-fields false true r h = rw (h.type) (rw (from_hex-hex r.target h.target.0 h.target.1) refl)
peel-fields false false r h = rw (h.type) (rw (from_hex-hex r.target h.target.0 h.target.1) refl)

join-nonempty :
    (f g : Bytes) (fields : List Bytes)
    → is_empty (join_with k_field_separator (f ∷ g ∷ fields)) ≡ false
join-nonempty [] g fields = refl
join-nonempty (c ∷ f) g fields = refl

-- A line with enough fields.
abbrev line_of : Bool → List Bytes → Option RefInfo
line_of empty fields =
    if empty then none else if ltb (length fields) 7 then none else some (ref_of fields)

parse_line-print : (r : Ref) → IsRef r → parse_line (print_ref r) ≡ some (info_of r)
unfolding parse_line split_fields
parse_line-print r h =
    let type = type_text r.is_annotated r in
    let rest = fields_behind_type r.is_annotated r.is_head r in
    ap (line_of (is_empty (print_ref r)))
      (split_from-join k_field_separator r.full_name (type ∷ rest) (printed-AreFields r h))
    ∙ ap (λ b. line_of b (printed_fields r)) (join-nonempty r.full_name type rest)
    ∙ ap (λ i. some (parse_track r.track i)) (peel-fields r.is_annotated r.is_head r h)

-- Every list of refs is read back from the lines that git prints for them, in their order, an
-- annotated tag as the commit it points at: for whole object ids and texts without the separator.
pub parse_lines-print : (rs : List Ref) → All IsRef rs → parse_lines (print_refs rs) ≡ infos_of rs
unfolding parse_lines
parse_lines-print [] h = refl
parse_lines-print (r ∷ rs) h =
    ap (λ o. consed o (parse_lines (print_refs rs))) (parse_line-print r h.0)
    ∙ ap (λ l. info_of r ∷ l) (parse_lines-print rs h.1)
