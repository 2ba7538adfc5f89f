-- ===== src/Service/Effects/Reading.antt =====
-- The values of a request as integers (src/service.rs), by rules: which values cannot be read, and
-- which integers the others are, in the order of the parameters.
use bo_srv_rs.Common.{List, [], ◌∷◌, none, some, ◌≡◌, ◌⊎◌, inl, inr, refl, Option-cases}
use bo_srv_rs.Common.Int.{ℤ}
use bo_srv_rs.Json.{Json}
use bo_srv_rs.Service.Params.{
  to_int, grid_params, global_grid_params, local_grid_params, global_cluster_params,
  local_cluster_params,
}
use bo_srv_rs.Service.Keys.{
  GridQuery, GlobalGridQuery, LocalGridQuery, GlobalClusterQuery, LocalClusterQuery,
}

module _ (j : Json) where
  open j use {Value}

  -- One of the values is no integer.
  abbrev pub Unread : List Value → Type 0
  Unread [] = ⊥
  Unread (v ∷ vs) = (to_int j v ≡ none) ⊎ Unread vs

  -- The values are these integers.
  abbrev pub Reads : List Value → List ℤ → Type 0
  Reads [] [] = Unit
  Reads [] (n ∷ ns) = ⊥
  Reads (v ∷ vs) [] = ⊥
  Reads (v ∷ vs) (n ∷ ns) = (to_int j v ≡ some n) × Reads vs ns

  abbrev pub grid_values : GridQuery → List ℤ
  grid_values p =
      p.minute_length ∷ p.grid_base_length ∷ p.minute_offset ∷ p.region ∷ p.count_threshold ∷ []

  abbrev pub global_grid_values : GlobalGridQuery → List ℤ
  global_grid_values p =
      p.minute_length ∷ p.grid_base_length ∷ p.minute_offset ∷ p.count_threshold ∷ []

  abbrev pub local_grid_values : LocalGridQuery → List ℤ
  local_grid_values p =
      p.x ∷ p.y ∷ p.grid_base_length ∷ p.minute_length ∷ p.minute_offset ∷ p.count_threshold
      ∷ p.data_area ∷ []

  abbrev pub global_cluster_values : GlobalClusterQuery → List ℤ
  global_cluster_values p = p.minute_length ∷ p.minute_offset ∷ p.interval_count ∷ []

  abbrev pub local_cluster_values : LocalClusterQuery → List ℤ
  local_cluster_values p =
      p.x ∷ p.y ∷ p.minute_length ∷ p.minute_offset ∷ p.data_area ∷ p.interval_count ∷ []

  pub grid_params-read :
      (a b c d f : Value)
      → ((grid_params j a b c d f ≡ none) × Unread (a ∷ b ∷ c ∷ d ∷ f ∷ []))
        ⊎ ((p : GridQuery) × (grid_params j a b c d f ≡ some p)
            × Reads (a ∷ b ∷ c ∷ d ∷ f ∷ []) (grid_values p))
  unfolding grid_params
  grid_params-read a b c d f = elim (Option-cases (to_int j a)) [
    | inl ea ↦ inl (rw (grid_params, ea) refl, inl ea)
    | inr (xa, ea) ↦ elim (Option-cases (to_int j b)) [
      | inl eb ↦ inl (rw (grid_params, ea, eb) refl, inr (inl eb))
      | inr (xb, eb) ↦ elim (Option-cases (to_int j c)) [
        | inl ec ↦ inl (rw (grid_params, ea, eb, ec) refl, inr (inr (inl ec)))
        | inr (xc, ec) ↦ elim (Option-cases (to_int j d)) [
          | inl ed ↦ inl (rw (grid_params, ea, eb, ec, ed) refl, inr (inr (inr (inl ed))))
          | inr (xd, ed) ↦ elim (Option-cases (to_int j f)) [
            | inl ef ↦
                inl (rw (grid_params, ea, eb, ec, ed, ef) refl, inr (inr (inr (inr (inl ef)))))
            | inr (xf, ef) ↦ inr (
              (record {
                minute_length = xa;
                grid_base_length = xb;
                minute_offset = xc;
                region = xd;
                count_threshold = xf;
              }),
              rw (grid_params, ea, eb, ec, ed, ef) refl,
              (ea, (eb, (ec, (ed, (ef, tt))))),
            )
          ]
        ]
      ]
    ]
  ]

  pub global_grid_params-read :
      (a b c d : Value)
      → ((global_grid_params j a b c d ≡ none) × Unread (a ∷ b ∷ c ∷ d ∷ []))
        ⊎ ((p : GlobalGridQuery) × (global_grid_params j a b c d ≡ some p)
            × Reads (a ∷ b ∷ c ∷ d ∷ []) (global_grid_values p))
  unfolding global_grid_params
  global_grid_params-read a b c d = elim (Option-cases (to_int j a)) [
    | inl ea ↦ inl (rw (global_grid_params, ea) refl, inl ea)
    | inr (xa, ea) ↦ elim (Option-cases (to_int j b)) [
      | inl eb ↦ inl (rw (global_grid_params, ea, eb) refl, inr (inl eb))
      | inr (xb, eb) ↦ elim (Option-cases (to_int j c)) [
        | inl ec ↦ inl (rw (global_grid_params, ea, eb, ec) refl, inr (inr (inl ec)))
        | inr (xc, ec) ↦ elim (Option-cases (to_int j d)) [
          | inl ed ↦ inl (rw (global_grid_params, ea, eb, ec, ed) refl, inr (inr (inr (inl ed))))
          | inr (xd, ed) ↦ inr (
            (record {
              minute_length = xa;
              grid_base_length = xb;
              minute_offset = xc;
              count_threshold = xd;
            }),
            rw (global_grid_params, ea, eb, ec, ed) refl,
            (ea, (eb, (ec, (ed, tt)))),
          )
        ]
      ]
    ]
  ]

  pub local_grid_params-read :
      (a b c d f g h : Value)
      → ((local_grid_params j a b c d f g h ≡ none) × Unread (a ∷ b ∷ c ∷ d ∷ f ∷ g ∷ h ∷ []))
        ⊎ ((p : LocalGridQuery) × (local_grid_params j a b c d f g h ≡ some p)
            × Reads (a ∷ b ∷ c ∷ d ∷ f ∷ g ∷ h ∷ []) (local_grid_values p))
  unfolding local_grid_params
  local_grid_params-read a b c d f g h = elim (Option-cases (to_int j a)) [
    | inl ea ↦ inl (rw (local_grid_params, ea) refl, inl ea)
    | inr (xa, ea) ↦ elim (Option-cases (to_int j b)) [
      | inl eb ↦ inl (rw (local_grid_params, ea, eb) refl, inr (inl eb))
      | inr (xb, eb) ↦ elim (Option-cases (to_int j c)) [
        | inl ec ↦ inl (rw (local_grid_params, ea, eb, ec) refl, inr (inr (inl ec)))
        | inr (xc, ec) ↦ elim (Option-cases (to_int j d)) [
          | inl ed ↦ inl (rw (local_grid_params, ea, eb, ec, ed) refl, inr (inr (inr (inl ed))))
          | inr (xd, ed) ↦ elim (Option-cases (to_int j f)) [
            | inl ef ↦
                inl
                  (rw (local_grid_params, ea, eb, ec, ed, ef) refl, inr (inr (inr (inr (inl ef)))))
            | inr (xf, ef) ↦ elim (Option-cases (to_int j g)) [
              | inl eg ↦ inl (
                rw (local_grid_params, ea, eb, ec, ed, ef, eg) refl,
                inr (inr (inr (inr (inr (inl eg))))),
              )
              | inr (xg, eg) ↦ elim (Option-cases (to_int j h)) [
                | inl eh ↦ inl (
                  rw (local_grid_params, ea, eb, ec, ed, ef, eg, eh) refl,
                  inr (inr (inr (inr (inr (inr (inl eh)))))),
                )
                | inr (xh, eh) ↦ inr (
                  (record {
                    x = xa;
                    y = xb;
                    grid_base_length = xc;
                    minute_length = xd;
                    minute_offset = xf;
                    count_threshold = xg;
                    data_area = xh;
                  }),
                  rw (local_grid_params, ea, eb, ec, ed, ef, eg, eh) refl,
                  (ea, (eb, (ec, (ed, (ef, (eg, (eh, tt))))))),
                )
              ]
            ]
          ]
        ]
      ]
    ]
  ]

  pub global_cluster_params-read :
      (a b c : Value)
      → ((global_cluster_params j a b c ≡ none) × Unread (a ∷ b ∷ c ∷ []))
        ⊎ ((p : GlobalClusterQuery) × (global_cluster_params j a b c ≡ some p)
            × Reads (a ∷ b ∷ c ∷ []) (global_cluster_values p))
  unfolding global_cluster_params
  global_cluster_params-read a b c = elim (Option-cases (to_int j a)) [
    | inl ea ↦ inl (rw (global_cluster_params, ea) refl, inl ea)
    | inr (xa, ea) ↦ elim (Option-cases (to_int j b)) [
      | inl eb ↦ inl (rw (global_cluster_params, ea, eb) refl, inr (inl eb))
      | inr (xb, eb) ↦ elim (Option-cases (to_int j c)) [
        | inl ec ↦ inl (rw (global_cluster_params, ea, eb, ec) refl, inr (inr (inl ec)))
        | inr (xc, ec) ↦ inr (
          (record { minute_length = xa; minute_offset = xb; interval_count = xc }),
          rw (global_cluster_params, ea, eb, ec) refl,
          (ea, (eb, (ec, tt))),
        )
      ]
    ]
  ]

  pub local_cluster_params-read :
      (a b c d f g : Value)
      → ((local_cluster_params j a b c d f g ≡ none) × Unread (a ∷ b ∷ c ∷ d ∷ f ∷ g ∷ []))
        ⊎ ((p : LocalClusterQuery) × (local_cluster_params j a b c d f g ≡ some p)
            × Reads (a ∷ b ∷ c ∷ d ∷ f ∷ g ∷ []) (local_cluster_values p))
  unfolding local_cluster_params
  local_cluster_params-read a b c d f g = elim (Option-cases (to_int j a)) [
    | inl ea ↦ inl (rw (local_cluster_params, ea) refl, inl ea)
    | inr (xa, ea) ↦ elim (Option-cases (to_int j b)) [
      | inl eb ↦ inl (rw (local_cluster_params, ea, eb) refl, inr (inl eb))
      | inr (xb, eb) ↦ elim (Option-cases (to_int j c)) [
        | inl ec ↦ inl (rw (local_cluster_params, ea, eb, ec) refl, inr (inr (inl ec)))
        | inr (xc, ec) ↦ elim (Option-cases (to_int j d)) [
          | inl ed ↦ inl (rw (local_cluster_params, ea, eb, ec, ed) refl, inr (inr (inr (inl ed))))
          | inr (xd, ed) ↦ elim (Option-cases (to_int j f)) [
            | inl ef ↦
                inl (
                  rw (local_cluster_params, ea, eb, ec, ed, ef) refl,
                  inr (inr (inr (inr (inl ef)))),
                )
            | inr (xf, ef) ↦ elim (Option-cases (to_int j g)) [
              | inl eg ↦ inl (
                rw (local_cluster_params, ea, eb, ec, ed, ef, eg) refl,
                inr (inr (inr (inr (inr (inl eg))))),
              )
              | inr (xg, eg) ↦ inr (
                (record {
                  x = xa;
                  y = xb;
                  minute_length = xc;
                  minute_offset = xd;
                  data_area = xf;
                  interval_count = xg;
                }),
                rw (local_cluster_params, ea, eb, ec, ed, ef, eg) refl,
                (ea, (eb, (ec, (ed, (ef, (eg, tt)))))),
              )
            ]
          ]
        ]
      ]
    ]
  ]
