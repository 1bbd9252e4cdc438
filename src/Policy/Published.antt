-- ===== src/Policy/Published.antt =====
-- What publishing policies keeps (services/policy/recoup_policy/service.py): every policy has its current
-- version, and every rule that is evaluated was validated.
use recoup.Common.{
  ℕ, ◌+◌, ◌≡◌, refl, Bool, true, not, ◌&&◌, Option, none, some, List, [], ◌∷◌, filter, find, all,
  leb, is_some, arith, ◌==◌, find-append, all-append, all-find,
}
use recoup.Json.{Value}
use recoup.Policy.Rules.{validate_rule}
use recoup.Policy.Store.{
  PolicyVersion, Policy, PolicyVersionCreate, PolicyCreate, Reply, Call, Command, create, update,
  publish, delete, get_policy, current_version, new_version, new_policy, create_policy,
  update_policy, add_version, put_policy, if_valid, on_policy, apply, kept, apply_all, is_of,
}

abbrev pub is_valid : PolicyVersion → Bool
is_valid v = not (is_some (validate_rule v.rule))

-- The current version is there, no version is above it, and the rules of all versions were validated.
abbrev pub is_sane : Policy → Bool
is_sane p =
    is_some (find (λ v. v.version == p.current_version) p.versions)
    && (all (λ v. leb v.version p.current_version) p.versions && all is_valid p.versions)

below_next :
    (c : ℕ) (vs : List PolicyVersion)
    → all (λ v. leb v.version c) vs ≡ true
    → all (λ v. leb v.version (c + 1)) vs ≡ true
below_next c [] h = refl
below_next c (v ∷ vs) h = ground (arith, below_next c vs)

no_next :
    (c : ℕ) (vs : List PolicyVersion)
    → all (λ v. leb v.version c) vs ≡ true
    → find (λ v. v.version == c + 1) vs ≡ none
no_next c [] h = refl
no_next c (v ∷ vs) h = ground (arith, no_next c vs)

add_version-sane :
    (c : Call) (body : PolicyVersionCreate) (p : Policy)
    → is_sane p ≡ true
    → validate_rule body.rule ≡ none
    → is_sane (add_version c body p) ≡ true
unfolding add_version
add_version-sane c body p h v =
    let new = new_version c (p.current_version + 1) body in
    ground (
      arith,
      no_next p.current_version p.versions,
      below_next p.current_version p.versions,
      find-append (λ x. x.version == p.current_version + 1) p.versions (new ∷ []),
      all-append (λ x. leb x.version (p.current_version + 1)) p.versions (new ∷ []),
      all-append is_valid p.versions (new ∷ []),
    )

put_policy-sane :
    (id : ℕ) (q : Policy) (ps : List Policy)
    → is_sane q ≡ true
    → all is_sane ps ≡ true
    → all is_sane (put_policy id q ps) ≡ true
unfolding put_policy
put_policy-sane id q [] h k = refl
put_policy-sane id q (p ∷ ps) h k = ground (arith, put_policy-sane id q ps h)

all-filter-sane :
    (keep : Policy → Bool) (ps : List Policy)
    → all is_sane ps ≡ true
    → all is_sane (filter keep ps) ≡ true
all-filter-sane keep [] h = refl
all-filter-sane keep (p ∷ ps) h = ground (arith, all-filter-sane keep ps)

create_policy-sane :
    (c : Call) (body : PolicyCreate) (ps : List Policy)
    → all is_sane ps ≡ true
    → validate_rule body.first.rule ≡ none
    → all is_sane (kept ps (create_policy c body ps)) ≡ true
unfolding create_policy
create_policy-sane c body ps h v = ground (arith, all-append is_sane ps (new_policy c body ∷ []))

found-sane :
    (f : Policy → List Policy) (ps : List Policy) (o : Option Policy)
    → all is_sane ps ≡ true
    → ((p : Policy) → o ≡ some p → all is_sane (f p) ≡ true)
    → all is_sane (kept ps (on_policy f o)) ≡ true
found-sane f ps none h k = h
found-sane f ps (some p) h k = k p refl

valid-sane :
    (rule : Value) (ps : List Policy) (reply : Reply)
    → all is_sane ps ≡ true
    → (validate_rule rule ≡ none → all is_sane (kept ps reply) ≡ true)
    → all is_sane (kept ps (if_valid rule reply)) ≡ true
valid-sane rule ps reply h k = ground (arith, k)

apply-sane :
    (c : Call) (command : Command) (ps : List Policy)
    → all is_sane ps ≡ true
    → all is_sane (kept ps (apply c command ps)) ≡ true
unfolding apply
apply-sane c (create body) ps h = valid-sane body.first.rule ps _ h (create_policy-sane c body ps h)
apply-sane c (update id body) ps h = found-sane _ ps (get_policy c.tenant_id id ps) h (λ p e.
    put_policy-sane p.id (update_policy c body p) ps
      (all-find is_sane (is_of c.tenant_id id) ps h e) h)
apply-sane c (publish id body) ps h = valid-sane body.rule ps _ h (λ v.
    found-sane _ ps (get_policy c.tenant_id id ps) h (λ p e.
      put_policy-sane p.id (add_version c body p) ps
        (add_version-sane c body p (all-find is_sane (is_of c.tenant_id id) ps h e) v) h))
apply-sane c (delete id) ps h =
    found-sane _ ps (get_policy c.tenant_id id ps) h
      (λ p e. all-filter-sane (λ x. not (x.id == p.id)) ps h)

-- After any commands of any tenants, accepted or refused, on policies that had it before: every policy
-- has its current version, no version has a higher number, and the rules of all versions are such that
-- `validate_rule` accepts them.
pub apply_all-sane :
    (commands : List (Call × Command)) (ps : List Policy)
    → all is_sane ps ≡ true
    → all is_sane (apply_all commands ps) ≡ true
unfolding apply_all
apply_all-sane [] ps h = h
apply_all-sane ((c, command) ∷ rest) ps h =
    apply_all-sane rest (kept ps (apply c command ps)) (apply-sane c command ps h)
