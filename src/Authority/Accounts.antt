-- ===== src/Authority/Accounts.antt =====
-- The registration of internal/service/auth.go, as one step of nobody in particular.
use secunda_homework.Base.{false, ◌≡◌, refl, arith, [], ◌∷◌, ◌++◌, any}
use secunda_homework.Entity.Rows.{User}
use secunda_homework.Dto.Requests.{RegisterRequest}
use secunda_homework.Store.State.{Db, Seq, World, Env}
use secunda_homework.Store.Effects.{Reads-now, Reads-pure, Reads-check_result, Reads-bind}
use secunda_homework.Store.Triples.{
  Assertion, Triple, Triple-Reads, Triple-exec, Triple-bind, Triple-map_err, Triple-holds,
}
use secunda_homework.Repository.Users.{has_email, user_row, insert_user, create_user}
use secunda_homework.Service.Auth.{Libraries, register}
use secunda_homework.Service.Auth.Laws.{
  Reads-stop_on, Reads-find_user_by_email, Reads-issue, Reads-or_failed, Reads-not_taken,
}

-- A registration adds at most an account, under the next key, with an address that is new.
pub data Join (env : Env) (d : Db) (s : Seq) : Db → Type 0 where
  unjoined : Join env d s d
  joined :
      (u : User)
      → u.id ≡ s.user
      → any (has_email env u.email) d.users ≡ false
      → Join env d s (record d { users = d.users ++ u ∷ [] })

module _ (env : Env) (d0 : Db) (s0 : Seq) where
  abbrev Before : Assertion
  Before d s = (d ≡ d0) × (s ≡ s0)

  abbrev Joined : Assertion
  Joined d s = Join env d0 s0 d

  waits : (d : Db) (s : Seq) → Before d s → Joined d s
  waits d s h = rw h.0 unjoined

  create_user-Joined :
      {R : Type 0} (lib : Libraries) (u : User)
      → Triple {R = R} Before (create_user env lib.to_lower u) (λ id. Joined) Joined
  unfolding create_user insert_user
  create_user-Joined lib u =
      Triple-bind _ _ (λ id. Joined) _
        (Triple-map_err _ _ (
          Triple-exec Before Joined waits env _ (λ id. Joined)
            (λ at d s id d' s' p e.
              let row : User = record (user_row env lib.to_lower u) { id = s.user } in
              let same : d' ≡ record d { users = d.users ++ row ∷ [] } = ground arith in
              let new : any (has_email env row.email) d.users ≡ false = ground arith in
              rw (same, ← p.0, ← p.1) (joined row refl new))))
        (λ id.
          Triple-Reads Joined Joined (λ d s h. h) _
            (Reads-bind _ _ (Reads-check_result env) (λ x. Reads-pure id)))

  register-Joined :
      {R : Type 0} (lib : Libraries) (req : RegisterRequest)
      → Triple {R = R} Before (register env lib req) (λ answer. Joined) Joined
  unfolding register
  register-Joined lib req =
      Triple-bind _ _ (λ x. Before) _ (Triple-Reads Before Joined waits _ (Reads-stop_on _))
        (λ x.
          Triple-bind _ _ (λ o. Before) _
            (Triple-Reads Before Joined waits _ (Reads-find_user_by_email env lib _))
            (λ existing.
              Triple-bind _ _ (λ y. Before) _
                (Triple-Reads Before Joined waits _ (Reads-not_taken env lib existing))
                (λ y.
                  Triple-bind _ _ (λ h. Before) _
                    (Triple-Reads Before Joined waits _ (Reads-or_failed _))
                    (λ hash.
                      Triple-bind _ _ (λ at. Before) _
                        (Triple-Reads Before Joined waits _ (Reads-now env))
                        (λ at.
                          Triple-bind _ _ (λ id. Joined) _ (create_user-Joined lib _)
                            (λ id.
                              Triple-Reads Joined Joined (λ d s h. h) _
                                (Reads-bind _ _ (Reads-issue env lib id _)
                                  (λ token. Reads-pure _))))))))

pub register-Join :
    {R : Type 0} (env : Env) (lib : Libraries) (req : RegisterRequest) (w : World R)
    → Join env w.db w.seq (register env lib req w).1.db
register-Join env lib req w =
    Triple-holds _ (λ a d s h. h) (register-Joined env w.db w.seq lib req) w (refl, refl)
