-- ===== src/TargetFilters/Visible.antt =====
-- provider/target_filters.py: the filtered listings and the enforced targets, against what they mean.
use ma_provider_mcp.Prelude.{
  ◌≡◌, refl, sym, ap, ap₂, subst, ◌∙◌, inl, inr, String, Bool, true, not, Option, none, some, List,
  [], ◌∷◌, filter, Bool-cases, fun_ext,
}
use ma_provider_mcp.TargetFilters.Rules.{
  TargetKind, player, CollectionRule, collection_rules, collection_rule, first_listing,
  is_player_kind, fnmatchcase,
}
use ma_provider_mcp.TargetFilters.Targets.{Library, User, allowed_values}
use ma_provider_mcp.TargetFilters.Rows.{
  Row, Part, rows_part, other_part, Listing, nothing, rows, parts, single, is_music_attributes,
  attributes_of, filter_of, by_allowed, collection_row_allowed, is_listed, filter_part,
  filter_parts, by_listing, by_filter, filter_collection_result,
}

-- A listing rule reads the attributes of its kind.
abbrev Consistent : List CollectionRule → Type 0
Consistent [] = Unit
Consistent (r ∷ rules) = (r.row_attributes ≡ attributes_of r.target_kind) × Consistent rules

same_rule : (a b : CollectionRule) → Path (Option CollectionRule) (some a) (some b) → a ≡ b
same_rule a b h = cc

first_listing-attributes :
    (rules : List CollectionRule) (command : String) (r : CollectionRule)
    → Consistent rules
    → first_listing rules command ≡ some r
    → r.row_attributes ≡ attributes_of r.target_kind
first_listing-attributes [] command r c h = absurd cc
first_listing-attributes (q ∷ rules) command r (first, rest) h =
    elim (Bool-cases (fnmatchcase q.command_pattern command)) [
      | inl e ↦
          subst (λ x. x.row_attributes ≡ attributes_of x.target_kind)
            (same_rule q r (rw (e, first_listing) at h)) first
      | inr e ↦ first_listing-attributes rules command r rest (rw (e, first_listing) at h)
    ]

rule-attributes :
    (command : String) (r : CollectionRule)
    → collection_rule command ≡ some r
    → r.row_attributes ≡ attributes_of r.target_kind
unfolding collection_rule
rule-attributes command r h =
    first_listing-attributes collection_rules command r (refl, (refl, (refl, (refl, (refl, tt))))) h

module _ {Data : Type 0} (keep : Row Data → Bool) where
  abbrev part_by : Part Data → Part Data
  part_by (rows_part items) = rows_part (filter keep items)
  part_by (other_part value) = other_part value

  abbrev parts_by : List (String × Part Data) → List (String × Part Data)
  parts_by [] = []
  parts_by ((key, part) ∷ fields) = (key, part_by part) ∷ parts_by fields

  -- A listing with only the rows that a test keeps, in their order.
  abbrev pub listing_by : Listing Data → Listing Data
  listing_by nothing = nothing
  listing_by (rows items) = rows (filter keep items)
  listing_by (parts identity fields) = parts identity (parts_by fields)
  listing_by (single row) = single row

module _ {Data : Type 0} where
  filter-true : (items : List (Row Data)) → filter (λ item. true) items ≡ items
  filter-true [] = refl
  filter-true (x ∷ xs) = ap (λ ys. x ∷ ys) (filter-true xs)

  part_by-true : (part : Part Data) → part_by (λ item. true) part ≡ part
  part_by-true (rows_part items) = ap rows_part (filter-true items)
  part_by-true (other_part value) = refl

  parts_by-true : (fields : List (String × Part Data)) → parts_by (λ item. true) fields ≡ fields
  parts_by-true [] = refl
  parts_by-true ((key, part) ∷ fields) =
      ap₂ (λ p fs. (key, p) ∷ fs) (part_by-true part) (parts_by-true fields)

  listing_by-true : (result : Listing Data) → listing_by (λ item. true) result ≡ result
  listing_by-true nothing = refl
  listing_by-true (rows items) = ap rows (filter-true items)
  listing_by-true (parts identity fields) = ap (parts identity) (parts_by-true fields)
  listing_by-true (single row) = refl

  module _ (library : Library) (allowed names : List String) where
    filter_part-part_by :
        (part : Part Data)
        → filter_part library allowed names part ≡ part_by (is_listed library allowed names) part
    filter_part-part_by (rows_part items) = refl
    filter_part-part_by (other_part value) = refl

    filter_parts-parts_by :
        (fields : List (String × Part Data))
        → filter_parts library allowed names fields
          ≡ parts_by (is_listed library allowed names) fields
    filter_parts-parts_by [] = refl
    filter_parts-parts_by ((key, part) ∷ fields) =
        ap₂ (λ p fs. (key, p) ∷ fs) (filter_part-part_by part) (filter_parts-parts_by fields)

    by_listing-listing_by :
        (result : Listing Data)
        → by_listing library allowed names result
          ≡ listing_by (is_listed library allowed names) result
    by_listing-listing_by nothing = refl
    by_listing-listing_by (rows items) = refl
    by_listing-listing_by (parts identity fields) =
        ap (parts identity) (filter_parts-parts_by fields)
    by_listing-listing_by (single row) = refl

music_kinds :
    (kind : TargetKind) → is_music_attributes (attributes_of kind) ≡ not (is_player_kind kind)
music_kinds player = refl
music_kinds _ = refl

module _ {Data : Type 0} (library : Library) (user : User) where
  -- The rows that the user may see, by `collection_row_allowed`.
  abbrev pub visible : TargetKind → Row Data → Bool
  visible kind item = collection_row_allowed library (some user) item.identity kind

  by_filter-visible :
      (kind : TargetKind) (o : Option (List String)) (result : Listing Data)
      → by_filter library o (attributes_of kind) result
        ≡ listing_by (λ item. by_allowed library item.identity kind o) result
  by_filter-visible kind none result = sym (listing_by-true result)
  by_filter-visible kind (some allowed) result =
      by_listing-listing_by library allowed (attributes_of kind) result
      ∙ ap (λ keep. listing_by keep result) (fun_ext λ item. rw (music_kinds kind) refl)

  -- Where a command has a listing rule, the filtered result is the native one with exactly the rows
  -- left, in their order, that `collection_row_allowed` lets the user see: in a list, and in each
  -- list of a mapping or dataclass.
  pub filter_collection_result-visible :
      (command : String) (rule : CollectionRule) (result : Listing Data)
      → collection_rule command ≡ some rule
      → filter_collection_result library (some user) command result
        ≡ listing_by (visible rule.target_kind) result
  unfolding filter_collection_result collection_row_allowed
  filter_collection_result-visible command rule result h = elim (Bool-cases user.is_admin) [
    | inl e ↦ rw e (sym (listing_by-true result))
    | inr e ↦ rw e (
        rw h (
          subst
            (λ names.
              by_filter library (allowed_values (filter_of user rule.target_kind)) names result
              ≡ listing_by
                  (λ item.
                    by_allowed library item.identity rule.target_kind
                      (allowed_values (filter_of user rule.target_kind)))
                  result)
            (sym (rule-attributes command rule h))
            (by_filter-visible rule.target_kind (allowed_values (filter_of user rule.target_kind))
              result)))
  ]
