-- ===== src/Tests/Teams.antt =====
-- Teams and comments at concrete requests.
use secunda_homework.Base.{
  any, ℕ, suc, ◌||◌, ◌==◌, ltb, length, Bool, true, false, Option, none, some, List, [], ◌∷◌, ◌++◌,
  pos, map, ◌≡◌, ◌⊎◌, inl, inr, refl, find,
}
use secunda_homework.Text.{Bytes, codes, beq, is_empty, trim_space, lower_byte, format_uint}
use secunda_homework.Entity.Role
use secunda_homework.Entity.Rows.{Team}
use secunda_homework.Dto.Requests.{CreateTeamRequest, InviteRequest, CreateCommentRequest}
use secunda_homework.Store.State.{Env, db, other, already_exists}
use secunda_homework.Store.Monad.{ok, err}
use secunda_homework.Service.Teams
use secunda_homework.Service.Teams.{new_team}
use secunda_homework.Service.Teams.Laws.{IsInvited, invite-IsInvited}
use secunda_homework.Service.Teams.Founding.{team_row, IsFounded, create-IsFounded, create_orphans}
use secunda_homework.Repository.Teams.{is_member}
use secunda_homework.Repository.Tasks.{has_id}
use secunda_homework.Service.Teams.Inviting.{invite_succeeds}
use secunda_homework.Service.Comments.Posting.{post_succeeds}
use secunda_homework.Service.Comments
use secunda_homework.Service.Comments.Laws.{IsPosted, create-IsPosted}
use secunda_homework.Tests.{ann, core, ann_in_core, release, calm, env_failing, start, tables, bob}

abbrev join : InviteRequest
join = record { user_id = 2; role = Role.admin }

bob_joins : (Teams.invite calm 1 7 join start).0 ≡ ok tt
unfolding Teams.invite Role.can_invite Role.is_valid beq find secunda_homework.Base.any
    secunda_homework.Repository.Rows.on_duplicate secunda_homework.Repository.Rows.team_exists
    secunda_homework.Repository.Rows.user_exists secunda_homework.Repository.Rows.wrap
    secunda_homework.Repository.Teams.add_member secunda_homework.Repository.Teams.find_team
    secunda_homework.Repository.Teams.get_member secunda_homework.Repository.Teams.insert_member
    secunda_homework.Repository.Users.find_user secunda_homework.Service.Access.not_found_as
    secunda_homework.Service.Access.require_member secunda_homework.Store.Calls.exec
    secunda_homework.Store.Calls.now secunda_homework.Store.Calls.query
    secunda_homework.Store.Monad.◌>>=◌ secunda_homework.Text.one_of
bob_joins = refl

invite-IsInvited_example : IsInvited calm 1 7 join tables (Teams.invite calm 1 7 join start).1.db
invite-IsInvited_example = invite-IsInvited calm 1 7 join start bob_joins

-- Ann is in the team already.
abbrev again : InviteRequest
again = record { user_id = 1; role = Role.admin }

ann_is_in : (Teams.invite calm 1 7 again start).0 ≡ err already_exists
unfolding Teams.invite Role.can_invite Role.is_valid beq find secunda_homework.Base.any
    secunda_homework.Repository.Rows.on_duplicate secunda_homework.Repository.Rows.team_exists
    secunda_homework.Repository.Rows.user_exists secunda_homework.Repository.Rows.wrap
    secunda_homework.Repository.Teams.add_member secunda_homework.Repository.Teams.find_team
    secunda_homework.Repository.Teams.get_member secunda_homework.Repository.Teams.insert_member
    secunda_homework.Repository.Users.find_user secunda_homework.Service.Access.not_found_as
    secunda_homework.Service.Access.require_member secunda_homework.Store.Calls.exec
    secunda_homework.Store.Calls.now secunda_homework.Store.Calls.query
    secunda_homework.Store.Monad.◌>>=◌ secunda_homework.Text.one_of
ann_is_in = refl

abbrev founding : CreateTeamRequest
founding = record { name = codes " new " }

abbrev founded : Team
founded = record {
  id = 8;
  name = codes "new";
  created_by = 2;
  created_at = 1001;
  updated_at = 1002;
}

bob_founds : (Teams.create calm 2 founding start).0 ≡ ok founded
unfolding Teams.create find secunda_homework.Base.any secunda_homework.Repository.Rows.team_exists
    secunda_homework.Repository.Rows.user_exists secunda_homework.Repository.Teams.add_member
    secunda_homework.Repository.Teams.create_team secunda_homework.Repository.Teams.insert_member
    secunda_homework.Repository.Teams.insert_team secunda_homework.Repository.Users.find_user
    secunda_homework.Store.Calls.check_result secunda_homework.Store.Calls.exec
    secunda_homework.Store.Calls.now secunda_homework.Store.Calls.query
    secunda_homework.Store.Monad.◌>>=◌ trim_space
bob_founds = refl

create-IsFounded_example :
    IsFounded calm 2
      (trim_space founding.name)
      tables
      (Teams.create calm 2 founding start).1.db
      founded
create-IsFounded_example = create-IsFounded calm 2 founding start founded bob_founds

abbrev note : CreateCommentRequest
note = record { body = codes " hi " }

ann_posts : (Comments.create calm 1 3 note start).0 ≡ ok 1
unfolding Comments.create find secunda_homework.Base.any
    secunda_homework.Repository.Comments.create_comment
    secunda_homework.Repository.Comments.insert_comment secunda_homework.Repository.Rows.task_exists
    secunda_homework.Repository.Rows.user_exists secunda_homework.Repository.Tasks.find_task
    secunda_homework.Repository.Teams.get_member secunda_homework.Service.Access.require_member
    secunda_homework.Service.Access.visible_task secunda_homework.Store.Calls.check_result
    secunda_homework.Store.Calls.exec secunda_homework.Store.Calls.now
    secunda_homework.Store.Calls.query secunda_homework.Store.Monad.◌>>=◌ trim_space
ann_posts = refl

create-IsPosted_example :
    IsPosted calm 1 3 (trim_space note.body) tables (Comments.create calm 1 3 note start).1.db 1
create-IsPosted_example = create-IsPosted calm 1 3 note start 1 ann_posts

-- The INSERT fails.
abbrev unposted : Env
unposted = env_failing (λ n. n == 4)

unposted_fails : (Comments.create unposted 1 3 note start).0 ≡ err (db other)
unfolding Comments.create find secunda_homework.Repository.Comments.create_comment
    secunda_homework.Repository.Rows.on_duplicate secunda_homework.Repository.Tasks.find_task
    secunda_homework.Repository.Teams.get_member secunda_homework.Service.Access.require_member
    secunda_homework.Service.Access.visible_task secunda_homework.Store.Calls.exec
    secunda_homework.Store.Calls.now secunda_homework.Store.Calls.query
    secunda_homework.Store.Monad.◌>>=◌ trim_space
unposted_fails = refl

-- The INSERT of the membership fails.
abbrev unjoined : Env
unjoined = env_failing (λ n. n == 6)

founding_fits :
    is_empty (trim_space founding.name)
      || ltb Teams.team_name_max_len (length (trim_space founding.name))
    ≡ false
unfolding trim_space
founding_fits = refl

bob_is_known : find (λ v. v.id == 2) tables.users ≡ some bob
unfolding find
bob_is_known = refl

create_orphans_example :
    ((Teams.create unjoined 2 founding start).0 ≡ err (db other))
    × ((Teams.create unjoined 2 founding start).1.db ≡ record tables {
      teams =
          tables.teams
          ++ (team_row unjoined (new_team (trim_space founding.name) 2 1001 1002) 8) ∷ [];
    })
create_orphans_example =
    create_orphans unjoined 2 founding start bob founding_fits bob_is_known refl refl refl refl

ann_is_known : find (λ v. v.id == 1) tables.users ≡ some ann
unfolding find
ann_is_known = refl

release_is_there : find (has_id 3) tables.tasks ≡ some release
unfolding find
release_is_there = refl

core_is_there : find (λ v. v.id == 7) tables.teams ≡ some core
unfolding find
core_is_there = refl

ann_belongs : find (is_member 7 1) tables.members ≡ some ann_in_core
unfolding find
ann_belongs = refl

note_fits :
    is_empty (trim_space note.body)
      || ltb Comments.comment_body_max_len (length (trim_space note.body))
    ≡ false
unfolding trim_space
note_fits = refl

post_succeeds_example : (Comments.create calm 1 3 note start).0 ≡ ok 1
post_succeeds_example =
    post_succeeds calm 1 3 note start ann release ann_in_core (λ n. refl) (λ n. refl) note_fits
      ann_is_known release_is_there ann_belongs

owner_invites : Role.can_invite Role.owner ≡ true
unfolding Role.can_invite beq
owner_invites = refl

admin-is_valid : Role.is_valid Role.admin ≡ true
unfolding Role.is_valid beq secunda_homework.Text.one_of
admin-is_valid = refl

bob_is_new : any (is_member 7 2) tables.members ≡ false
unfolding any
bob_is_new = refl

invite_succeeds_example : (Teams.invite calm 1 7 join start).0 ≡ ok tt
invite_succeeds_example =
    invite_succeeds calm 1 7 join start core ann_in_core bob (λ n. refl) core_is_there ann_belongs
      owner_invites bob_is_known admin-is_valid bob_is_new
