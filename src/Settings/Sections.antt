-- ===== src/Settings/Sections.antt =====
-- Every location shows a section.
use ledgerly_app.Base.{
  ◌≡◌, refl, true, false, codes, List, [], ◌∷◌, Text, has, find, map, drop, text_eq, ◌==◌,
  text_beq_iff, arith, Bool-cases, inl, inr,
}
use ledgerly_app.Settings.{settings_sections, get_settings_section_from_hash, id_or_first}

abbrev pub section_ids : List (Text × Text) → List Text
section_ids sections = map (λ section. section.0) sections

found :
    (id : Text) (sections : List (Text × Text))
    → has id (section_ids sections) ≡ true
    → id_or_first (find (λ section. section.0 == id) sections) ≡ id
unfolding has
found id [] h = cc
found id ((other, label) ∷ sections) h = elim (Bool-cases (other == id)) [
  | inl same ↦ rw same ((text_beq_iff other id).0 same)
  | inr different ↦ rw different (found id sections (ground (arith)))
]

unfound :
    (id : Text) (sections : List (Text × Text))
    → has id (section_ids sections) ≡ false
    → id_or_first (find (λ section. section.0 == id) sections) ≡ codes "settings-0"
unfolding has
unfound id [] h = refl
unfound id ((other, label) ∷ sections) h = elim (Bool-cases (other == id)) [
  | inl same ↦ cc
  | inr different ↦ rw different (unfound id sections (ground (arith)))
]

-- Every location shows one of the sections: the one that its hash names and, if it names none, the
-- first.
pub section-shown :
    (hash : Text)
    → (has (drop 1 hash) (section_ids settings_sections) ≡ true
        → get_settings_section_from_hash hash ≡ drop 1 hash)
      × (has (drop 1 hash) (section_ids settings_sections) ≡ false
          → get_settings_section_from_hash hash ≡ codes "settings-0")
unfolding get_settings_section_from_hash
section-shown hash =
    (found (drop 1 hash) settings_sections, unfound (drop 1 hash) settings_sections)
