-- ===== src/Entity/Role/Laws.antt =====
-- Parsing and rights of roles (internal/entity/role.go).
use secunda_homework.Base.{true, some, ◌≡◌, ◌↔◌, ◌⊎◌, inl, inr, arith}
use secunda_homework.Text.{Bytes, beq, one_of}
use secunda_homework.Text.Equality.{beq_iff}
use secunda_homework.Entity.Role.{Role, owner, admin, member, to_lower, parse, is_valid, can_invite}

-- A valid role is one of the three.
pub is_valid_iff : (r : Role) → (is_valid r ≡ true) ↔ ((r ≡ owner) ⊎ (r ≡ admin) ⊎ (r ≡ member))
unfolding is_valid one_of
is_valid_iff r = (
  λ h. ground (arith, beq_iff r owner, beq_iff r admin, beq_iff r member),
  λ h. ground (arith, beq_iff r owner, beq_iff r admin, beq_iff r member),
)

parse-is_valid :
    (s : Bytes) (r : Role)
    → parse s ≡ some r
    → (to_lower s ≡ r) × ((r ≡ owner) ⊎ (r ≡ admin) ⊎ (r ≡ member))
unfolding parse
parse-is_valid s r h =
    ground
      (arith, beq_iff (to_lower s) owner, beq_iff (to_lower s) admin, beq_iff (to_lower s) member)

parse_complete :
    (s : Bytes) (r : Role)
    → (r ≡ owner) ⊎ (r ≡ admin) ⊎ (r ≡ member)
    → to_lower s ≡ r
    → parse s ≡ some r
unfolding parse beq
parse_complete s r (inl e) h = rw (h, e)
parse_complete s r (inr (inl e)) h = rw (h, e)
parse_complete s r (inr (inr e)) h = rw (h, e)

-- ParseRole succeeds exactly on the spellings of the three valid roles in any mixture of upper and
-- lower case, and returns the lower-case spelling.
pub parse_iff :
    (s : Bytes) (r : Role) → (parse s ≡ some r) ↔ ((is_valid r ≡ true) × (to_lower s ≡ r))
parse_iff s r = (
  λ h. let (low, three) = parse-is_valid s r h in ((is_valid_iff r).1 three, low),
  λ h. parse_complete s r ((is_valid_iff r).0 h.0) h.1,
)

to_lower-eq : (r : Role) → (r ≡ owner) ⊎ (r ≡ admin) ⊎ (r ≡ member) → to_lower r ≡ r
unfolding to_lower
to_lower-eq r (inl e) = rw e
to_lower-eq r (inr (inl e)) = rw e
to_lower-eq r (inr (inr e)) = rw e

-- A valid role is read back from its own spelling.
pub parse-valid : (r : Role) → is_valid r ≡ true → parse r ≡ some r
parse-valid r h = let three = (is_valid_iff r).0 h in parse_complete r r three (to_lower-eq r three)

-- Exactly the owner and the admins may invite, and so may manage the team; both are valid roles.
pub can_invite_iff : (r : Role) → (can_invite r ≡ true) ↔ ((r ≡ owner) ⊎ (r ≡ admin))
unfolding can_invite
can_invite_iff r = (
  λ h. ground (arith, beq_iff r owner, beq_iff r admin),
  λ h. ground (arith, beq_iff r owner, beq_iff r admin),
)
