-- ===== src/DemoSession/Views.antt =====
-- The shown collection under the operations of the session, as operations on a plain list.
use ledgerly_app.Base.{
  map-append, any, if◌then◌else◌, ◌≡◌, refl, sym, ◌∙◌, ap, ap₂, Bool, true, not, ◌&&◌, ◌||◌, List,
  [], ◌∷◌, ◌++◌, map, Text, arith, filter, filter-append, has, ◌==◌, text_eq, Map, get,
  get-put_self, get-delete, ==_self, Bool-cases, Option-cases, inl, inr, append_assoc, text_beq_iff,
}
use ledgerly_app.DemoSession.{
  apply_to, update_demo_session_item, Identified, DemoSession, demo_collection_key, or_nil, current,
  deleted, others, undelete, add_demo_session_item, keep, add_id, remove_demo_session_item,
  shown_base, overlay, use_demo_session_collection,
}

module _ {A : Type 0} where
  filter-filter :
      (p q r : A → Bool) (xs : List A)
      → ((x : A) → r x ≡ (p x && q x))
      → filter q (filter p xs) ≡ filter r xs
  filter-filter p q r [] h = refl
  filter-filter p q r (x ∷ xs) h = ground (arith, h x, filter-filter p q r xs h)

  filter-true : (p : A → Bool) (xs : List A) → ((x : A) → p x ≡ true) → filter p xs ≡ xs
  filter-true p [] h = refl
  filter-true p (x ∷ xs) h = rw (h x) (ap (◌∷◌ x) (filter-true p xs h))

has-filter :
    (i k : Text) (ids : List Text)
    → has k (filter (λ j. not (j == i)) ids) ≡ (not (k == i) && has k ids)
unfolding has
has-filter i k [] = ground arith
has-filter i k (j ∷ ids) =
    ground (arith, text_beq_iff j i, text_beq_iff k i, text_beq_iff j k, has-filter i k ids)

has-append_one : (i k : Text) (ids : List Text) → has k (ids ++ i ∷ []) ≡ (has k ids || i == k)
unfolding has
has-append_one i k [] = ground arith
has-append_one i k (j ∷ ids) = ground (arith, has-append_one i k ids)

has-add_id : (i k : Text) (ids : List Text) → has k (add_id i ids) ≡ (has k ids || i == k)
has-add_id i k ids = elim (Bool-cases (has i ids)) [
  | inl there ↦ rw there (ground (arith, text_beq_iff i k, there))
  | inr new ↦ rw new (has-append_one i k ids)
]

module _ {T : Type 0} (identified : Identified T) where
  open identified use {id}

  has-others :
      (i k : Text) (items : List T)
      → has k (map id (others identified i items)) ≡ (not (k == i) && has k (map id items))
  unfolding has
  has-others i k [] = ground arith
  has-others i k (x ∷ items) =
      ground (
        arith,
        text_beq_iff (id x) i,
        text_beq_iff k i,
        text_beq_iff (id x) k,
        has-others i k items,
      )

  overlay_lem :
      (additions : List T) (gone : List Text) (base_items : List T)
      → overlay identified additions gone base_items
        ≡ additions ++ shown_base identified additions gone base_items
  unfolding has
  overlay_lem [] [] base_items = sym (filter-true _ base_items (λ x. refl))
  overlay_lem [] (i ∷ gone) base_items = refl
  overlay_lem (x ∷ additions) gone base_items = refl

  -- What the session holds of a collection after `keep`.
  current-keep :
      (key : Text) (items : List T) (m : Map Text (List T))
      → or_nil (get key (keep key items m)) ≡ items
  current-keep key [] m = rw (get-delete key key m) (rw (==_self key))
  current-keep key (x ∷ items) m = rw (get-put_self key (x ∷ items) m)

  deleted-undelete :
      (key i k : Text) (m : Map Text (List Text))
      → has k (or_nil (get key (undelete key i m))) ≡ (not (k == i) && has k (or_nil (get key m)))
  unfolding has
  deleted-undelete key i k m = elim (Option-cases (get key m)) [
    | inl nothing ↦ rw (nothing, undelete) (rw nothing (ground arith))
    | inr (gone, held) ↦
        rw (held, undelete)
          (rw (get-put_self key (filter (λ j. not (j == i)) gone) m) (has-filter i k gone))
  ]

  -- The rest of the base under a changed overlay.
  shown_base-others :
      (i : Text) (additions changed : List T) (gone gone' : List Text) (base_items : List T)
      → ((k : Text)
          → (not (has k (map id changed)) && not (has k gone'))
            ≡ ((not (has k (map id additions)) && not (has k gone)) && not (k == i)))
      → shown_base identified changed gone' base_items
        ≡ others identified i (shown_base identified additions gone base_items)
  shown_base-others i additions changed gone gone' base_items h =
      sym (filter-filter _ _ _ base_items (λ x. h (id x)))

  others-append :
      (i : Text) (xs ys : List T)
      → others identified i xs ++ others identified i ys ≡ others identified i (xs ++ ys)
  others-append i xs ys = sym (filter-append (λ item. not (id item == i)) xs ys)

  -- A changed overlay from which the records `i` are gone, or in which one stands first.
  overlay-others :
      (i : Text) (front additions : List T) (gone gone' : List Text) (base_items : List T)
      → ((k : Text)
          → (not (has k (map id (front ++ others identified i additions))) && not (has k gone'))
            ≡ ((not (has k (map id additions)) && not (has k gone)) && not (k == i)))
      → (front ++ others identified i additions)
          ++ shown_base identified (front ++ others identified i additions) gone' base_items
        ≡ front
          ++ others identified i (additions ++ shown_base identified additions gone base_items)
  overlay-others i front additions gone gone' base_items h =
      append_assoc front (others identified i additions) _
      ∙ ap (λ t. front ++ (others identified i additions ++ t))
          (shown_base-others i additions _ gone gone' base_items h)
      ∙ ap (◌++◌ front) (others-append i additions _)

  any-has : (i : Text) (items : List T) → any (λ item. id item == i) items ≡ has i (map id items)
  unfolding has
  any-has i [] = refl
  any-has i (x ∷ items) = ap (λ b. id x == i || b) (any-has i items)

  module _ (i : Text) (update : T → T) (keeps : (x : T) → id (update x) ≡ id x) where
    id-apply_to : (x : T) → id (apply_to identified i update x) ≡ id x
    id-apply_to x = elim (Bool-cases (id x == i)) [
      | inl same ↦ rw same (keeps x)
      | inr other ↦ rw other
    ]

    ids-apply_to : (xs : List T) → map id (map (apply_to identified i update) xs) ≡ map id xs
    ids-apply_to [] = refl
    ids-apply_to (x ∷ xs) = ap₂ ◌∷◌ (id-apply_to x) (ids-apply_to xs)

    -- An update does not touch what is not there.
    apply_to-shown_base :
        (additions : List T) (gone : List Text) (base_items : List T)
        → has i (map id additions) ≡ true
        → map (apply_to identified i update) (shown_base identified additions gone base_items)
          ≡ shown_base identified additions gone base_items
    apply_to-shown_base additions gone [] h = refl
    apply_to-shown_base additions gone (x ∷ base_items) h = elim (Bool-cases (id x == i)) [
      | inl same ↦
          rw ((text_beq_iff (id x) i).0 same)
            (rw h (apply_to-shown_base additions gone base_items h))
      | inr other ↦
          elim (Bool-cases (not (has (id x) (map id additions)) && not (has (id x) gone))) [
            | inl shown ↦
                rw shown (rw other (ap (◌∷◌ x) (apply_to-shown_base additions gone base_items h)))
            | inr hidden ↦ rw hidden (apply_to-shown_base additions gone base_items h)
          ]
    ]

    shown_base-apply_to :
        (additions : List T) (gone : List Text) (base_items : List T)
        → shown_base identified (map (apply_to identified i update) additions) gone base_items
          ≡ shown_base identified additions gone base_items
    shown_base-apply_to additions gone base_items =
        ap
          (λ (l : List Text).
            filter (λ item. not (has (id item) l) && not (has (id item) gone)) base_items)
          (ids-apply_to additions)

  module _ (workspace_id collection : Text) (base_items : List T) where
    -- The collection as the visitor of the demo sees it.
    abbrev pub view : DemoSession T → List T
    view s = use_demo_session_collection identified true workspace_id collection base_items s

    view_lem :
        (s : DemoSession T)
        → view s
          ≡ current (demo_collection_key workspace_id collection) s
            ++ shown_base identified
                (current (demo_collection_key workspace_id collection) s)
                (deleted (demo_collection_key workspace_id collection) s)
                base_items
    unfolding use_demo_session_collection
    view_lem s = overlay_lem _ _ base_items

    -- An added record stands first, and replaces one with its ID, of the session or of the base, also
    -- one that was removed.
    pub view-add :
        (item : T) (s : DemoSession T)
        → view (add_demo_session_item identified workspace_id collection item s)
          ≡ item ∷ others identified (id item) (view s)
    unfolding add_demo_session_item has
    view-add item s =
        view_lem _
        ∙ rw (get-put_self key added s.records) (
            overlay-others (id item) (item ∷ []) (current key s) (deleted key s) _ base_items (λ k.
              ground (
                arith,
                text_beq_iff (id item) k,
                text_beq_iff k (id item),
                has-others (id item) k (current key s),
                deleted-undelete key (id item) k s.deleted_ids,
              )))
        ∙ ap (λ v. item ∷ others identified (id item) v) (sym (view_lem s))
      where
        key : Text
        key = demo_collection_key workspace_id collection

        added : List T
        added = item ∷ others identified (id item) (current key s)

    -- A removed record is gone, whether the session or the base had it, and the others stay.
    pub view-remove :
        (item_id : Text) (s : DemoSession T)
        → view (remove_demo_session_item identified workspace_id collection item_id s)
          ≡ others identified item_id (view s)
    unfolding remove_demo_session_item
    view-remove item_id s =
        view_lem _
        ∙ rw (current-keep key (others identified item_id (current key s)) s.records) (
            rw (get-put_self key (add_id item_id (deleted key s)) s.deleted_ids) (
              overlay-others item_id [] (current key s) (deleted key s) _ base_items (λ k. ground (
                arith,
                text_beq_iff item_id k,
                text_beq_iff k item_id,
                has-others item_id k (current key s),
                has-add_id item_id k (deleted key s),
              ))))
        ∙ ap (others identified item_id) (sym (view_lem s))
      where
        key : Text
        key = demo_collection_key workspace_id collection

    -- An update that keeps IDs is seen in the collection if the session holds a record with the ID;
    -- otherwise nothing changes, also where the base has such a record.
    pub view-update :
        (item_id : Text) (update : T → T) (s : DemoSession T)
        → ((x : T) → id (update x) ≡ id x)
        → view (update_demo_session_item identified workspace_id collection item_id update s) ≡ (
            if has item_id (map id (current (demo_collection_key workspace_id collection) s))
            then map (apply_to identified item_id update) (view s)
            else view s)
    unfolding update_demo_session_item
    view-update item_id update s keeps =
        elim (Bool-cases (any (λ item. id item == item_id) (current key s))) [
          | inl there ↦
              rw (there, update_demo_session_item)
                (rw (known ∙ there) (
                  view_lem _
                  ∙ rw
                      (get-put_self key (map (apply_to identified item_id update) (current key s))
                        s.records)
                      (ap (◌++◌ (map (apply_to identified item_id update) (current key s))) (
                        shown_base-apply_to item_id update keeps (current key s) (deleted key s)
                          base_items
                        ∙ sym (
                            apply_to-shown_base item_id update keeps (current key s) (deleted key s)
                              base_items (known ∙ there))))
                  ∙ sym (map-append (apply_to identified item_id update) (current key s) _)
                  ∙ ap (map (apply_to identified item_id update)) (sym (view_lem s))))
          | inr absent ↦ rw (absent, update_demo_session_item) (rw (known ∙ absent))
        ]
      where
        key : Text
        key = demo_collection_key workspace_id collection

        known :
            has item_id (map id (current key s)) ≡ any (λ item. id item == item_id) (current key s)
        known = sym (any-has item_id (current key s))
