-- ===== src/RoutingService/Route/Wanted.antt =====
-- Which deliveries `RoutingService.route` of packages/application/src/index.ts creates.
use partner_integration_reli.Prelude.{
  ◌≡◌, ◌∙◌, refl, subst, sym, not, if◌then◌else◌, true, false, none, some, Bool, Option, inl, inr,
  Option-cases, Bool-cases,
}
use partner_integration_reli.Domain.Configuration.{
  Subscription, Destination, Partner, TransformationVersion,
}
use partner_integration_reli.Store.Database.{Database}
use partner_integration_reli.RoutingService.Route.{RoutingVisit, find}

module _ (db : Database) (v : RoutingVisit db) where
  -- A subscription that wants the event for a destination: nothing on the way from it to the
  -- destination, its partner and its transformation is missing or disabled.
  pub record IsWanted (x : Subscription) (d : Destination) (t : TransformationVersion)
      : Type 0 where
    pub subscribed : x.enabled ≡ true
    pub destined : v.destination x.destination_id ≡ some d
    pub receives : d.enabled ≡ true
    pub partnered : (p : Partner) × (v.partner d.partner_id ≡ some p) × (p.enabled ≡ true)
    pub transformed : v.transformation d.transformation_id d.active_transformation_version ≡ some t

  -- The end of `find`, for a destination that receives.
  abbrev find_from : Destination → Option (Destination × TransformationVersion)
  find_from d =
      if not (elim (v.partner d.partner_id) [ none ↦ false | some p ↦ p.enabled ])
      then none
      else elim (v.transformation d.transformation_id d.active_transformation_version) [
        | none ↦ none
        | some t ↦ some (d, t)
      ]

  partner-IsWanted :
      (x : Subscription) (d : Destination) (t : TransformationVersion) (d' : Destination)
      → x.enabled ≡ true
      → v.destination x.destination_id ≡ some d'
      → d'.enabled ≡ true
      → find_from d' ≡ some (d, t)
      → IsWanted x d t
  partner-IsWanted x d t d' on e open_d h = elim (Option-cases (v.partner d'.partner_id)) [
    | inl none_there ↦ let g = rw none_there at h in cc
    | inr (p, known) ↦ elim (Bool-cases p.enabled) [
      | inr off ↦ let g = rw off at (rw known at h) in cc
      | inl active ↦
          elim (Option-cases
            (v.transformation d'.transformation_id d'.active_transformation_version)) [
              | inl gone ↦ let g = rw gone at (rw active at (rw known at h)) in cc
              | inr (t', found) ↦
                  let g = rw found at (rw active at (rw known at h)) in
                  let same : (d', t') ≡ (d, t) = cc in
                  let wanted : IsWanted x d' t' = record {
                    subscribed = on;
                    destined = e;
                    receives = open_d;
                    partnered = (p, known, active);
                    transformed = found;
                  } in
                  subst (λ (q : Destination × TransformationVersion). IsWanted x q.0 q.1) same
                    wanted
            ]
    ]
  ]

  open_step :
      (b : Bool) (d : Destination)
      → elim (if b then some d else none) [ none ↦ none | some d' ↦ find_from d' ]
        ≡ (if b then find_from d else none)
  open_step true d = refl
  open_step false d = refl

  find_step :
      (x : Subscription) (d : Destination)
      → x.enabled ≡ true
      → v.destination x.destination_id ≡ some d
      → find db v x ≡ (if d.enabled then find_from d else none)
  unfolding find
  find_step x d on e = rw (on, find) (rw e (open_step d.enabled d))

  if_some :
      {A : Type 0} (b : Bool) (o : Option A) (a : A)
      → (if b then o else none) ≡ some a
      → (b ≡ true) × (o ≡ some a)
  if_some true o a h = (refl, h)
  if_some false o a h = cc

  if_true : {A : Type 0} (b : Bool) (o : Option A) → b ≡ true → (if b then o else none) ≡ o
  if_true true o h = refl
  if_true false o h = cc

  -- `find` finds only what is wanted, and finds it.
  pub find-IsWanted :
      (x : Subscription) (d : Destination) (t : TransformationVersion)
      → find db v x ≡ some (d, t)
      → IsWanted x d t
  unfolding find
  find-IsWanted x d t h = elim (Bool-cases x.enabled) [
    | inr off ↦ let g = rw (off, find) at h in cc
    | inl on ↦ elim (Option-cases (v.destination x.destination_id)) [
      | inl e ↦ let g = rw e at (rw (on, find) at h) in cc
      | inr (d', e) ↦
          let (active, rest) =
            if_some d'.enabled (find_from d') (d, t) (sym (find_step x d' on e) ∙ h) in
          partner-IsWanted x d t d' on e active rest
    ]
  ]

  pub IsWanted-find :
      (x : Subscription) (d : Destination) (t : TransformationVersion)
      → IsWanted x d t
      → find db v x ≡ some (d, t)
  IsWanted-find x d t w =
      let (p, known, enabled) = w.partnered in
      find_step x d w.subscribed w.destined
      ∙ if_true d.enabled (find_from d) w.receives
      ∙ rw known (rw enabled (rw w.transformed refl))
