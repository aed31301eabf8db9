-- ===== src/Controller/Sleeping/Failed.antt =====
-- The failures that the loop over the items of a kind reports.
use kronos_core.Base.{
  ℕ, ◌≡◌, refl, ◌≤◌, ◌==◌, inl, inr, some, none, true, false, List, [], ◌∷◌, String, length, arith,
  Bool-cases, Option-cases, Option, Bool, get_elem?,
}
use kronos_core.Base.Outcome.{ok}
use kronos_core.Base.Effect.{Reply, reply, refused, bind-ok, Effect, attempt, lift, pure, ◌>>=◌}
use kronos_core.Cluster.{Codec, Cluster, Resource, replica, status}
use kronos_core.Objects.Resources.{
  put_to_sleep, failed_name, sleep_replica, sleep_status, add_to_list,
}
use kronos_core.Controller.Sleeping.{
  check_occurence_in_saved_data, SleepLoop, Item, sleep_new, keep_saved, sleep_item, sleep_items,
}

module _ {codec : Codec} (cluster : Cluster codec) where
  failed_name-length :
      {A : Type 0} (name : String) (result : Reply A) → length (failed_name cluster name result) ≤ 1
  failed_name-length name (reply a) = omega arith
  failed_name-length name (refused e) = omega arith

  attempted-length :
      {A : Type 0} (m : Effect cluster.State A) (name : String) (failed : List String)
      (st st' : cluster.State)
      → (attempt m >>= λ result. pure (failed_name cluster name result)) st ≡ (ok failed, st')
      → length failed ≤ 1
  attempted-length m name failed st st' e =
      let (result, st₁, _, last) =
        bind-ok (attempt m) (λ result. pure (failed_name cluster name result)) st failed st' e in
      let same : failed_name cluster name result ≡ failed = ground arith in
      rw (← same) (failed_name-length name result)

  put_to_sleep-length :
      (r : Resource) (failed : List String) (st st' : cluster.State)
      → put_to_sleep cluster r st ≡ (ok failed, st')
      → length failed ≤ 1
  unfolding put_to_sleep
  put_to_sleep-length (replica o) failed st st' e = elim (Bool-cases (o.replicas == 0)) [
    | inl nothing ↦
        let e' = rw (nothing, put_to_sleep) at e in
        let same : failed ≡ [] = ground arith in rw same (omega arith)
    | inr left ↦
        attempted-length (sleep_replica cluster o) o.name failed st st'
          (rw (left, put_to_sleep) at e)
  ]
  put_to_sleep-length (status o) failed st st' e = by_status o.status refl
    where
      by_status : (b : Option Bool) → o.status ≡ b → length failed ≤ 1
      by_status none nil = absurd (let e' = rw (nil, put_to_sleep) at e in ground arith)
      by_status (some true) asleep =
          let e' = rw (asleep, put_to_sleep) at e in
          let same : failed ≡ [] = ground arith in rw same (omega arith)
      by_status (some false) awake =
          attempted-length (sleep_status cluster (record o { status = some false })) o.name failed
            st st' (rw (awake, put_to_sleep) at e)

  sleep_new-length :
      (item : Item) (l l' : SleepLoop) (st st' : cluster.State)
      → sleep_new cluster item l st ≡ (ok l', st')
      → length l'.failed ≤ 1
  unfolding sleep_new
  sleep_new-length item l l' st st' e =
      let (r, st₁, made, rest) =
        bind-ok (lift item.resource)
          (λ r. put_to_sleep cluster r >>= λ failed.
            pure (record l { resources = add_to_list r l.resources; failed = failed }))
          st l' st' e in
      let (failed, st₂, slept, last) =
        bind-ok (put_to_sleep cluster r)
          (λ failed. pure (record l { resources = add_to_list r l.resources; failed = failed })) st₁
          l' st' rest in
      let same : l'.failed ≡ failed = ground arith in
      rw same (put_to_sleep-length r failed st₁ st₂ slept)

  keep_saved-failed :
      (index : ℕ) (l l' : SleepLoop) (st st' : cluster.State)
      → keep_saved cluster index l st ≡ (ok l', st')
      → l'.failed ≡ l.failed
  unfolding keep_saved
  keep_saved-failed index l l' st st' e = elim (Option-cases (get_elem? l.saved index)) [
    | inl missing ↦ absurd (ground arith)
    | inr (r, found) ↦ ground arith
  ]

  sleep_item-length :
      (item : Item) (l l' : SleepLoop) (st st' : cluster.State)
      → length l.failed ≤ 1
      → sleep_item cluster item l st ≡ (ok l', st')
      → length l'.failed ≤ 1
  unfolding sleep_item
  sleep_item-length item l l' st st' h e =
      elim (Option-cases (check_occurence_in_saved_data l.saved item.name item.namespace)) [
        | inl fresh ↦ sleep_new-length item l l' st st' (rw (fresh, sleep_item) at e)
        | inr (index, found) ↦
            rw (keep_saved-failed index l l' st st' (rw (found, sleep_item) at e)) h
      ]

  -- However many objects of a kind fail to be put to sleep, the loop over the items reports one of
  -- them at most, if it began with no more.
  pub sleep_items-length :
      (items : List Item) (l l' : SleepLoop) (st st' : cluster.State)
      → length l.failed ≤ 1
      → sleep_items cluster items l st ≡ (ok l', st')
      → length l'.failed ≤ 1
  unfolding sleep_items
  sleep_items-length [] l l' st st' h e = let same : l ≡ l' = ground arith in rw (← same) h
  sleep_items-length (item ∷ items) l l' st st' h e =
      let (l₁, st₁, first, later) =
        bind-ok (sleep_item cluster item l) (sleep_items cluster items) st l' st' e in
      sleep_items-length items l₁ l' st₁ st' (sleep_item-length item l l₁ st st₁ h first) later
