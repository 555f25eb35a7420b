-- ===== src/ApiClient/Recovery.antt =====
-- What the recovery for a missing vault can and cannot do.
use ledgerly_app.Base.{
  ◌≡◌, ◌⊎◌, refl, ◌∙◌, ap, Bool, true, false, ◌&&◌, Option, none, some, Text, codes, arith,
  Option-cases, inl, inr, ◌==◌, text_eq, text_beq_iff, if◌then◌else◌,
}
use ledgerly_app.ApiClient.Json.{as_string, Json, Members, end, member, lookup_member}
use ledgerly_app.ApiClient.Vaults.{
  Failure, api_error, type_error, syntax_error, other_error, Client, is_legacy_vault_validation,
  legacy_finance_workspace_id, members_of, currency_of,
}
use ledgerly_app.ApiClient.Requests.{
  Platform, RequestOptions, thrown, Ensured, vault, fault, send, request, recover, recoverable,
  fall_back, add_member, sent_again, ensure_internal_vault_id, without_vault, parsed_body, pair,
  method_of,
}

guarded :
    {A : Type 0} (a b c d : Bool) (x : Option A) {found : A}
    → (if a && b && c && d then x else none) ≡ some found
    → d ≡ true
guarded a b c d x h = ground arith

unguarded :
    {A : Type 0} (a b : Bool) (x : Option A) → a ≡ false → (if a && b then x else none) ≡ none
unguarded a b x h = ground arith

pair-none : {A : Type 0} (platform : Platform A) (id : Option Text) → pair platform id none ≡ none
pair-none platform none = refl
pair-none platform (some id) = refl

if-same : {A : Type 0} (b : Bool) (x : Option A) → x ≡ none → (if b then x else none) ≡ none
if-same b x h = ground arith

module _ {W : Type 0} (platform : Platform W) where
  validation-fall_back :
      (e : Failure) (options : RequestOptions)
      → is_legacy_vault_validation e ≡ true
      → fall_back platform options e ≡ thrown e
  unfolding is_legacy_vault_validation fall_back
  validation-fall_back (api_error shape status) options h =
      elim (Option-cases options.demo_fallback) [
        | inl nothing ↦ rw (nothing, fall_back)
        | inr (value, demo) ↦ rw (demo, fall_back)
      ]
  validation-fall_back type_error options h = cc
  validation-fall_back syntax_error options h = cc
  validation-fall_back other_error options h = cc

  recoverable-validation :
      (path : Text) (options : RequestOptions) (e : Failure) (found : Text × Members)
      → recoverable platform path options e ≡ some found
      → is_legacy_vault_validation e ≡ true
  unfolding recoverable
  recoverable-validation path options e found h =
      guarded options.retry_legacy_vault platform.authorized_deployment
        (method_of platform options.method == codes "POST") (is_legacy_vault_validation e) _ h

  -- A request that says so, or whose body names a vault, is never recovered: what is sent again is not
  -- recovered once more.
  pub recoverable-none :
      (path : Text) (options : RequestOptions) (e : Failure) (ms : Members) (id : Json)
      → (options.retry_legacy_vault ≡ false)
        ⊎ ((members_of (parsed_body platform options.body) ≡ some ms)
            × (lookup_member (codes "vaultId") ms ≡ some id))
      → recoverable platform path options e ≡ none
  unfolding recoverable
  recoverable-none path options e ms id (inl refused) = rw refused
  recoverable-none path options e ms id (inr named) = if-same _ _ (
      ap (pair platform (legacy_finance_workspace_id path)) (vault_named named.0 named.1)
      ∙ pair-none platform (legacy_finance_workspace_id path))
    where
      vault_named :
          members_of (parsed_body platform options.body) ≡ some ms
          → lookup_member (codes "vaultId") ms ≡ some id
          → without_vault platform (members_of (parsed_body platform options.body)) ≡ none
      vault_named body there = rw body (rw (there, without_vault))

  -- What a recovery that found no vault leaves behind.
  abbrev pub HasNoVault : Ensured platform → Type 0
  HasNoVault (fault c w) = Unit
  HasNoVault (vault none c w) = Unit
  HasNoVault (vault (some id) c w) = ⊥

  sent_again-none :
      (path : Text) (options : RequestOptions) (ms : Members) (e : Failure)
      (ensured : Ensured platform)
      → HasNoVault ensured
      → (sent_again platform path options ms e ensured).0 ≡ fall_back platform options e
  sent_again-none path options ms e (fault c w) h = refl
  sent_again-none path options ms e (vault none c w) h = refl
  sent_again-none path options ms e (vault (some id) c w) h = absurd h

  -- If the recovery of a request cannot find or create a vault, whether a request of its own fails or
  -- gives no ID, the caller gets the original error.
  pub request-original_error :
      (c : Client) (path : Text) (options : RequestOptions) (w w' : W) (e : Failure)
      (workspace_id : Text) (ms : Members)
      → send platform c path options w ≡ (thrown e, w')
      → recoverable platform path options e ≡ some (workspace_id, ms)
      → HasNoVault (
          ensure_internal_vault_id platform workspace_id
            (currency_of platform.string_of platform.to_upper_case ms)
            (as_string (lookup_member (codes "accountId") ms))
            c
            w')
      → (request platform c path options w).0 ≡ thrown e
  unfolding request recover
  request-original_error c path options w w' e workspace_id ms sent start no_vault =
      rw (sent, request)
        (rw (start, recover)
          (sent_again-none path options ms e _ no_vault
            ∙ validation-fall_back e options (recoverable-validation path options e _ start)))

-- The body that is sent again has the vault's ID, and all else that it had.
pub lookup-add_member :
    {W : Type 0} (platform : Platform W) (key k : Text) (value : Json) (ms : Members)
    → lookup_member key ms ≡ none
    → lookup_member k (add_member platform key value ms)
      ≡ (if key == k then some value else lookup_member k ms)
unfolding lookup_member
lookup-add_member platform key k value end h = refl
lookup-add_member platform key k value (member j v ms) h = ground (
  arith,
  text_beq_iff key k,
  text_beq_iff j key,
  text_beq_iff j k,
  lookup-add_member platform key k value ms,
)
