-- ===== src/Attestation/Messages.antt =====
-- A signing message says what is signed: it is read back in one way.
use mathlib.Core.List.{append_assoc}
use nest_authz.Prelude.{
  ◌≤◌, String, ◌≡◌, refl, sym, ap, ◌∙◌, arith, Option, some, [], ◌∷◌, ◌++◌, length, find, ltb, ◌==◌,
  ◌!=◌, string_eq, string_discrete, nat_eq, ok, bind_returns, raise_if-passed, ok-injective,
  eq_of_not_ne,
}
use nest_authz.Domain.Value.{Sha256Digest}
use nest_authz.Domain.Attestation.{
  SignatureScheme, ArtifactPurpose, ArtifactKind, scheme_value, purpose_value, kind_value,
}
use nest_authz.Canonical.Bytes.{
  Bytes, big_endian, big_endian-injective, length-big_endian, append-injective, utf8,
  utf8-injective,
}
use nest_authz.Attestation.{
  max_field_length, message_field, attestation_preamble, attestation_signing_message,
}

-- A tag, the length of the value in four bytes, and the value.
pub record IsField (value b : Bytes) : Type 0 where
  pub tag_bytes : Bytes
  pub one_byte : length tag_bytes ≡ 1
  pub small : length value ≤ max_field_length
  pub shape : b ≡ tag_bytes ++ (big_endian 4 (length value) ++ value)

message_field-IsField : (t v b : Bytes) → message_field t v ≡ ok b → IsField v b
unfolding message_field
message_field-IsField t v b h =
    let (one, h1) = raise_if-passed (length t != 1) _ _ h in
    let (small, h2) = raise_if-passed (ltb max_field_length (length v)) _ _ h1 in
    record {
      tag_bytes = t;
      one_byte = eq_of_not_ne (length t) 1 one;
      small = ground arith;
      shape = sym (ok-injective h2);
    }

opened :
    (v b s : Bytes) (f : IsField v b)
    → f.tag_bytes ++ (big_endian 4 (length v) ++ (v ++ s)) ≡ b ++ s
opened v b s f =
    ap (λ x. f.tag_bytes ++ x) (sym (append_assoc (big_endian 4 (length v)) v s))
    ∙ sym (append_assoc f.tag_bytes (big_endian 4 (length v) ++ v) s)
    ∙ ap (λ x. x ++ s) (sym f.shape)

read_field : (v w b c s t : Bytes) → IsField v b → IsField w c → b ++ s ≡ c ++ t → (v ≡ w) × (s ≡ t)
read_field v w b c s t f g h =
    let (_, h1) =
      append-injective f.tag_bytes g.tag_bytes _ _ (f.one_byte ∙ sym g.one_byte)
        (opened v b s f ∙ h ∙ sym (opened w c t g)) in
    let (sizes, h2) =
      append-injective (big_endian 4 (length v)) (big_endian 4 (length w)) _ _
        (length-big_endian 4 (length v) ∙ sym (length-big_endian 4 (length w))) h1 in
    let same =
      big_endian-injective 4 (length v) (length w) (omega (arith, f.small)) (omega (arith, g.small))
        sizes in
    append-injective v w s t same h2

-- The values of an enumeration tell its members apart.
abbrev read_purpose : String → Option ArtifactPurpose
read_purpose text =
    find (λ p. purpose_value p == text)
      (ArtifactPurpose.policy_bundle ∷ ArtifactPurpose.authority_grant
        ∷ ArtifactPurpose.decision_receipt ∷ ArtifactPurpose.execution_permit ∷ [])

read_purpose_lem : (p : ArtifactPurpose) → read_purpose (purpose_value p) ≡ some p
unfolding string_eq string_discrete
read_purpose_lem ArtifactPurpose.policy_bundle = refl
read_purpose_lem ArtifactPurpose.authority_grant = refl
read_purpose_lem ArtifactPurpose.decision_receipt = refl
read_purpose_lem ArtifactPurpose.execution_permit = refl

abbrev read_kind : String → Option ArtifactKind
read_kind text =
    find (λ k. kind_value k == text)
      (ArtifactKind.policy_bundle ∷ ArtifactKind.authority_grant ∷ ArtifactKind.decision_receipt
        ∷ ArtifactKind.execution_permit ∷ [])

read_kind_lem : (k : ArtifactKind) → read_kind (kind_value k) ≡ some k
unfolding string_eq string_discrete
read_kind_lem ArtifactKind.policy_bundle = refl
read_kind_lem ArtifactKind.authority_grant = refl
read_kind_lem ArtifactKind.decision_receipt = refl
read_kind_lem ArtifactKind.execution_permit = refl

some-injective {ℓ} : {A : Type ℓ} {a b : A} → Path (Option A) (some a) (some b) → a ≡ b
some-injective h = cc

purpose-eq : (p q : ArtifactPurpose) → utf8 (purpose_value p) ≡ utf8 (purpose_value q) → p ≡ q
purpose-eq p q h =
    some-injective
      (sym (read_purpose_lem p) ∙ ap read_purpose (utf8-injective _ _ h) ∙ read_purpose_lem q)

kind-eq : (k l : ArtifactKind) → utf8 (kind_value k) ≡ utf8 (kind_value l) → k ≡ l
kind-eq k l h =
    some-injective (sym (read_kind_lem k) ∙ ap read_kind (utf8-injective _ _ h) ∙ read_kind_lem l)

-- The fields of a message.
record Parts (scheme : SignatureScheme) (purpose : ArtifactPurpose) (kind : ArtifactKind)
    (digest : Sha256Digest) (m : Bytes) : Type 0 where
  s : Bytes
  p : Bytes
  k : Bytes
  d : Bytes
  scheme_field : IsField (utf8 (scheme_value scheme)) s
  purpose_field : IsField (utf8 (purpose_value purpose)) p
  kind_field : IsField (utf8 (kind_value kind)) k
  digest_field : IsField digest.value d
  joined : attestation_preamble ++ (s ++ (p ++ (k ++ d))) ≡ m

parts :
    (scheme : SignatureScheme) (purpose : ArtifactPurpose) (kind : ArtifactKind)
    (digest : Sha256Digest) (m : Bytes)
    → attestation_signing_message scheme purpose kind digest ≡ ok m
    → Parts scheme purpose kind digest m
unfolding attestation_signing_message
parts scheme purpose kind digest m h =
    let (s, s_made, h1) = bind_returns (message_field (83 ∷ []) (utf8 (scheme_value scheme))) _ h in
    let (p, p_made, h2) =
      bind_returns (message_field (80 ∷ []) (utf8 (purpose_value purpose))) _ h1 in
    let (k, k_made, h3) = bind_returns (message_field (75 ∷ []) (utf8 (kind_value kind))) _ h2 in
    let (d, d_made, h4) = bind_returns (message_field (68 ∷ []) digest.value) _ h3 in
    record {
      s = s;
      p = p;
      k = k;
      d = d;
      scheme_field = message_field-IsField _ _ s s_made;
      purpose_field = message_field-IsField _ _ p p_made;
      kind_field = message_field-IsField _ _ k k_made;
      digest_field = message_field-IsField _ _ d d_made;
      joined = ok-injective h4;
    }

-- Equal signing messages are for one purpose, one kind of artifact and one digest.
pub attestation_signing_message-injective :
    (s t : SignatureScheme) (p q : ArtifactPurpose) (k l : ArtifactKind) (d e : Sha256Digest)
    (m : Bytes)
    → attestation_signing_message s p k d ≡ ok m
    → attestation_signing_message t q l e ≡ ok m
    → (p ≡ q) × (k ≡ l) × (d ≡ e)
attestation_signing_message-injective s t p q k l d e m h j =
    let x = parts s p k d m h in
    let y = parts t q l e m j in
    let (_, h1) =
      append-injective attestation_preamble attestation_preamble _ _ refl
        (x.joined ∙ sym y.joined) in
    let (_, h2) = read_field _ _ x.s y.s _ _ x.scheme_field y.scheme_field h1 in
    let (purposes, h3) = read_field _ _ x.p y.p _ _ x.purpose_field y.purpose_field h2 in
    let (kinds, h4) = read_field _ _ x.k y.k x.d y.d x.kind_field y.kind_field h3 in
    let (digests, _) =
      read_field _ _ x.d y.d [] [] x.digest_field y.digest_field (ap (λ z. z ++ []) h4) in
    (purpose-eq p q purposes, kind-eq k l kinds, λ i. record { value = digests i })
