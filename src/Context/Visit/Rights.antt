-- ===== src/Context/Visit/Rights.antt =====
-- Who sees a context behind a link.
use zagforge_mvp.Prelude.{
  ℕ, String, ◌≡◌, ◌↔◌, refl, ap, subst, arith, true, false, ◌||◌, Option, none, some, ==_iff,
  ==_refl, if◌then◌else◌, Bool-cases, inl, inr,
}
use zagforge_mvp.Workspace.Model.{Membership}
use zagforge_mvp.Context.Model.{
  Visibility, public, private, protected, ContextToken, ContextDb, get_membership, is_allowed,
}
use zagforge_mvp.Context.Queries.{is_some_id, get_member, is_user_allowed_for_token}
use zagforge_mvp.Context.Visit.{
  granted, VisitEnv, found, extract_claims, is_member, visible_to, for_user, for_claims, is_public,
  check_visibility,
}

-- the header carries a token whose subject is the user
abbrev pub Caller : VisitEnv → String → ℕ → Type 0
Caller env authorization user =
    (subject : String) × (extract_claims env authorization ≡ some subject)
    × (env.scan_uuid subject ≡ some user)

-- the rule of the three visibilities
pub data MayRead (env : VisitEnv) (authorization : String) (t : ContextToken) (db : ContextDb)
    : Type 0 where
  anyone : t.visibility ≡ public → MayRead env authorization t db
  owner :
      (user : ℕ)
      → t.visibility ≡ private
      → Caller env authorization user
      → t.user_id ≡ some user
      → MayRead env authorization t db
  member :
      (user org : ℕ) (m : Membership)
      → t.visibility ≡ private
      → Caller env authorization user
      → t.org_id ≡ some org
      → get_member user org db ≡ some m
      → MayRead env authorization t db
  listed :
      (user : ℕ)
      → t.visibility ≡ protected
      → Caller env authorization user
      → is_user_allowed_for_token t.id user db ≡ true
      → MayRead env authorization t db

is_some_id-some : (user : ℕ) (o : Option ℕ) → is_some_id user o ≡ true → o ≡ some user
is_some_id-some user none h = absurd (ground arith)
is_some_id-some user (some k) h = ap some ((==_iff k user).0 h)

found-some : (o : Option Membership) → found o ≡ true → (m : Membership) × (o ≡ some m)
found-some none h = absurd (ground arith)
found-some (some m) h = (m, refl)

module _ (env : VisitEnv) (authorization : String) (t : ContextToken) (db : ContextDb) where
  is_member-row :
      (user : ℕ) (o : Option ℕ)
      → is_member env user o db ≡ true
      → (org : ℕ) × (m : Membership) × (o ≡ some org) × (get_member user org db ≡ some m)
  unfolding is_member
  is_member-row user none h = absurd (ground arith)
  is_member-row user (some org) h =
      let (m, e) = found-some (get_member user org db) (ground arith) in (org, m, refl, e)

  private-MayRead :
      (user : ℕ)
      → t.visibility ≡ private
      → Caller env authorization user
      → (is_some_id user t.user_id || is_member env user t.org_id db) ≡ true
      → MayRead env authorization t db
  private-MayRead user v c h = elim (Bool-cases (is_some_id user t.user_id)) [
    | inl own ↦ owner user v c (is_some_id-some user t.user_id own)
    | inr other ↦
        let (org, m, o, row) = is_member-row user t.org_id (ground arith) in
        member user org m v c o row
  ]

  visible_to-MayRead :
      (v : Visibility) (user : ℕ)
      → t.visibility ≡ v
      → Caller env authorization user
      → visible_to env v t user db ≡ true
      → MayRead env authorization t db
  unfolding visible_to
  visible_to-MayRead public user v c h = anyone v
  visible_to-MayRead private user v c h = private-MayRead user v c h
  visible_to-MayRead protected user v c h = listed user v c (ground arith)

  is_public-public : (v : Visibility) → is_public env v ≡ true → v ≡ public
  is_public-public public h = refl
  is_public-public private h = absurd (ground arith)
  is_public-public protected h = absurd (ground arith)

  for_user-MayRead :
      (subject : String) (o : Option ℕ)
      → extract_claims env authorization ≡ some subject
      → env.scan_uuid subject ≡ o
      → for_user env t o db ≡ granted
      → MayRead env authorization t db
  unfolding for_user
  for_user-MayRead subject none c u h = absurd (ground arith)
  for_user-MayRead subject (some user) c u h =
      elim (Bool-cases (visible_to env t.visibility t user db)) [
        | inl ok ↦ visible_to-MayRead t.visibility user refl (subject, c, u) ok
        | inr bad ↦ absurd (ground arith)
      ]

  for_claims-MayRead :
      (o : Option String)
      → extract_claims env authorization ≡ o
      → for_claims env t o db ≡ granted
      → MayRead env authorization t db
  unfolding for_claims
  for_claims-MayRead none c h = absurd (ground arith)
  for_claims-MayRead (some subject) c h = for_user-MayRead subject (env.scan_uuid subject) c refl h

  pub granted-MayRead :
      check_visibility env authorization t db ≡ granted → MayRead env authorization t db
  unfolding check_visibility
  granted-MayRead h = elim (Bool-cases (is_public env t.visibility)) [
    | inl open_to_all ↦ anyone (is_public-public t.visibility open_to_all)
    | inr closed ↦ for_claims-MayRead (extract_claims env authorization) refl (
        subst
          (λ b.
            (if b then granted else for_claims env t (extract_claims env authorization) db)
            ≡ granted)
          closed h)
  ]

  -- a caller with the right by a visibility that is not public
  for_claims-granted :
      (user : ℕ)
      → Caller env authorization user
      → visible_to env t.visibility t user db ≡ true
      → check_visibility env authorization t db ≡ granted
  unfolding check_visibility for_claims for_user
  for_claims-granted user (subject, c, u) h = elim (Bool-cases (is_public env t.visibility)) [
    | inl open_to_all ↦ rw open_to_all refl
    | inr closed ↦ rw closed (rw c (rw u (rw h refl)))
  ]

  MayRead-granted :
      env.fails get_membership ≡ false
      → env.fails is_allowed ≡ false
      → MayRead env authorization t db
      → check_visibility env authorization t db ≡ granted
  unfolding check_visibility visible_to is_member
  MayRead-granted fm fa (anyone v) = rw v refl
  MayRead-granted fm fa (owner user v c o) =
      for_claims-granted user c (rw v (rw o (ground (arith, ==_refl user))))
  MayRead-granted fm fa (member user org m v c o row) =
      for_claims-granted user c (rw v (rw o (rw fm (rw row (ground arith)))))
  MayRead-granted fm fa (listed user v c a) = for_claims-granted user c (rw v (rw fa a))

  -- When the two statements of the check do not fail, the check of the visibility lets a request in
  -- exactly when the token is public; or the subject of the request's JWT, read as the id of an API
  -- user, is, for a private token, the id of its owner or of a member of the organization that owns
  -- it, and for a protected one an id on its list. Whether the person behind the JWT has that id is
  -- not said.
  pub check_visibility-MayRead :
      env.fails get_membership ≡ false
      → env.fails is_allowed ≡ false
      → (check_visibility env authorization t db ≡ granted) ↔ MayRead env authorization t db
  check_visibility-MayRead fm fa = (granted-MayRead, MayRead-granted fm fa)
