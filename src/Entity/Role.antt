-- ===== src/Entity/Role.antt =====
-- internal/entity/role.go. A `Role` is any string, as in the source; three of them are valid.
pub mod Laws
use secunda_homework.Base.{Bool, ◌||◌, Option, none, some, List, [], ◌∷◌, map, if◌then◌else◌}
use secunda_homework.Text.{Bytes, codes, beq, one_of, lower_byte}

abbrev pub Role : Type 0
Role = Bytes

abbrev pub owner : Role
owner = codes "owner"

abbrev pub admin : Role
admin = codes "admin"

abbrev pub member : Role
member = codes "member"

abbrev pub valid_roles : List Role
valid_roles = owner ∷ admin ∷ member ∷ []

unfoldable pub to_lower : Role → Role
to_lower r = map lower_byte r

-- `ParseRole`; the error is `none`.
unfoldable pub parse : Bytes → Option Role
parse s =
    let r = to_lower s in
    if beq r owner
    then some owner
    else if beq r admin
    then some admin
    else if beq r member
    then some member
    else none

unfoldable pub is_valid : Role → Bool
is_valid r = one_of r valid_roles

unfoldable pub can_invite : Role → Bool
can_invite r = beq r owner || beq r admin

unfoldable pub can_manage_team : Role → Bool
can_manage_team r = beq r owner || beq r admin
