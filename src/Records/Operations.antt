-- ===== src/Records/Operations.antt =====
-- What the callers of src/records.c may rely on: each operation, whatever the system answers, and
-- what it does to the map from addresses to records.
use agentsmith.Base.{◌≤◌, Option, none, some, ◌≡◌, refl, ◌⊎◌, inl, inr, length}
use agentsmith.Base.Outcome.{
  Outcome, ret, Retval, ok, err, Env, locked, ReturnsOrExits, locked-ReturnsOrExits, locked_served,
  assert_holds,
}
use agentsmith.Base.Cstring.{Bytes, c_str}
use agentsmith.Config.{Config}
use agentsmith.Records.{
  HostRecord, Vector, records_add_ip, records_add_record, records_remove, records_get,
}
use agentsmith.Records.Lookup.{key, view, IsValid, records_find-view}
use agentsmith.Records.Add.{
  Updates, Leaves, IsServing, next_ip, next_record, BodyCases, add_ip-BodyCases,
  add_record-BodyCases, RemoveCases, remove-RemoveCases,
}

body-Leaves :
    (e : Env) (v : Vector) (k : Bytes) (x : HostRecord) (m : Outcome (Vector × Retval))
    → BodyCases e v k x m
    → ReturnsOrExits (Leaves v k (some x)) m
body-Leaves e v k x m (inl (u, h, w, up)) = rw h (w, inl up)
body-Leaves e v k x m (inr (inl (u, h, w, same, _))) = rw h (w, inr (refl, same))
body-Leaves e v k x m (inr (inr (h, _))) = rw h refl

removal-Leaves :
    (v : Vector) (k : Bytes) (m : Outcome (Vector × Retval))
    → IsValid v
    → RemoveCases v k m
    → ReturnsOrExits (Leaves v k none) m
removal-Leaves v k m w (inl (u, r, h, w', up, _)) = rw h (w', inl up)
removal-Leaves v k m w (inr (h, _)) = rw h (w, inr (refl, λ j. refl))

-- A failing lock or unlock leaves what the body leaves, with an error.
locked-Leaves :
    (e : Env) (v : Vector) (k : Bytes) (x : Option HostRecord) (m : Outcome (Vector × Retval))
    → IsValid v
    → ReturnsOrExits (Leaves v k x) m
    → ReturnsOrExits (Leaves v k x) (locked e v m)
locked-Leaves e v k x m w h =
    locked-ReturnsOrExits e v m (Leaves v k x) (w, inr (refl, λ j. refl)) fail h
  where
    fail : (t : Vector) (r : Retval) → Leaves v k x (t, r) → Leaves v k x (t, err)
    fail t r (w', inl up) = (w', inl up)
    fail t r (w', inr (_, same)) = (w', inr (refl, same))

module _ (e : Env) (v : Vector) (w : IsValid v) where
  -- Whatever the system answers, `records_add_ip` on a valid vector and an address of at most 45
  -- bytes returns or exits with code 3. If it returns, the vector is valid, and either the map is
  -- changed at that address only, to a fresh record or to the old one seen again, or the result is
  -- RETVAL_ERR and the map is as before.
  pub records_add_ip-Leaves :
      (c : Config) (ipaddr : Bytes)
      → length (c_str ipaddr) ≤ 45
      → ReturnsOrExits
          (Leaves v (c_str ipaddr) (some (next_ip c e.now ipaddr (view v (c_str ipaddr)))))
          (records_add_ip c e v ipaddr)
  unfolding records_add_ip
  records_add_ip-Leaves c ipaddr fits =
      rw (assert_holds v.initialized _ w.laid_out.started)
        (locked-Leaves e v _ _ _ w (body-Leaves e v _ _ _ (add_ip-BodyCases c e v ipaddr w fits)))

  -- Whatever the system answers, `records_add_record` on a valid vector and any record returns or
  -- exits with code 3. If it returns, the vector is valid, and either the map is changed at the address of
  -- the record only, to the record itself or to what it makes of the one that is there, or the
  -- result is RETVAL_ERR and the map is as before.
  pub records_add_record-Leaves :
      (hr : HostRecord)
      → ReturnsOrExits
          (Leaves v (key hr) (some (next_record e.now hr (view v (key hr)))))
          (records_add_record e v hr)
  unfolding records_add_record
  records_add_record-Leaves hr =
      rw (assert_holds v.initialized _ w.laid_out.started)
        (locked-Leaves e v _ _ _ w (body-Leaves e v _ _ _ (add_record-BodyCases e v hr w)))

  -- Whatever the system answers, `records_remove` on a valid vector returns or exits with code 3. If it
  -- returns, the vector is valid, and either the address has no record and all others are as before,
  -- or the result is RETVAL_ERR and the map is as before.
  pub records_remove-Leaves :
      (ipaddr : Bytes) → ReturnsOrExits (Leaves v (c_str ipaddr) none) (records_remove e v ipaddr)
  unfolding records_remove
  records_remove-Leaves ipaddr =
      rw (assert_holds v.initialized _ w.laid_out.started)
        (locked-Leaves e v _ _ _ w (removal-Leaves v _ _ w (remove-RemoveCases v ipaddr w)))

module _ (e : Env) (v : Vector) (s : IsServing e) (w : IsValid v) where
  served_body :
      (k : Bytes) (x : HostRecord) (m : Outcome (Vector × Retval))
      → BodyCases e v k x m
      → (u : Vector) × (locked e v m ≡ ret (u, ok)) × IsValid u × Updates v u k (some x)
  served_body k x m (inl (u, h, w', up)) = (u, locked_served e v u ok m s.locks s.unlocks h, w', up)
  served_body k x m (inr (inl (u, h, w', same, no_memory))) = cc (s.mallocs)
  served_body k x m (inr (inr (h, no_memory))) = cc (s.reallocs)

  -- When the system grants everything, `records_add_ip` succeeds: the address, of at most 45 bytes,
  -- now has a fresh record, or its old one seen again, and no other address changes.
  pub records_add_ip_served :
      (c : Config) (ipaddr : Bytes)
      → length (c_str ipaddr) ≤ 45
      → (u : Vector) × (records_add_ip c e v ipaddr ≡ ret (u, ok))
        × IsValid u
        × Updates v u (c_str ipaddr) (some (next_ip c e.now ipaddr (view v (c_str ipaddr))))
  unfolding records_add_ip
  records_add_ip_served c ipaddr fits =
      rw (assert_holds v.initialized _ w.laid_out.started)
        (served_body _ _ _ (add_ip-BodyCases c e v ipaddr w fits))

  -- When the system grants everything, `records_add_record` succeeds: the address of the record now
  -- has that record, or what it makes of the one that was there, and no other address changes.
  pub records_add_record_served :
      (hr : HostRecord)
      → (u : Vector) × (records_add_record e v hr ≡ ret (u, ok))
        × IsValid u
        × Updates v u (key hr) (some (next_record e.now hr (view v (key hr))))
  unfolding records_add_record
  records_add_record_served hr =
      rw (assert_holds v.initialized _ w.laid_out.started)
        (served_body _ _ _ (add_record-BodyCases e v hr w))

  -- When the locks are granted, `records_remove` either succeeds, and the address had a record and
  -- has none now while all others are as before, or it reports an error, and there was none.
  pub records_remove_served :
      (ipaddr : Bytes)
      → ((u : Vector) × (r : HostRecord) × (records_remove e v ipaddr ≡ ret (u, ok))
          × IsValid u
          × Updates v u (c_str ipaddr) none
          × (view v (c_str ipaddr) ≡ some r))
        ⊎ ((records_remove e v ipaddr ≡ ret (v, err)) × (view v (c_str ipaddr) ≡ none))
  unfolding records_remove
  records_remove_served ipaddr = elim (remove-RemoveCases v ipaddr w) [
    | inl (u, r, h, w', up, old) ↦ inl (
      u,
      r,
      rw (assert_holds v.initialized _ w.laid_out.started)
          (locked_served e v u ok _ s.locks s.unlocks h),
      w',
      up,
      old,
    )
    | inr (h, absent) ↦ inr (
      rw (assert_holds v.initialized _ w.laid_out.started)
          (locked_served e v v err _ s.locks s.unlocks h),
      absent,
    )
  ]

  -- `records_get` returns the record of the address, or NULL if there is none.
  pub records_get_served : (ipaddr : Bytes) → records_get e v ipaddr ≡ ret (view v (c_str ipaddr))
  unfolding records_get
  records_get_served ipaddr = rw (
    assert_holds v.initialized _ w.laid_out.started,
    s.locks,
    s.unlocks,
    records_find-view v ipaddr w,
  )
