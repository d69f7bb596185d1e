-- ===== src/Schema/Lookups.antt =====
-- Which sections of the tree of src/osc-query-schema.cpp a path reaches, and what it finds there.
use obs_osc.Base.{
  true, false, List, [], ◌∷◌, All, Option, none, some, if◌then◌else◌, Bytes, codes, str_eq,
  str_eq_refl, ◌≡◌, refl, sym, ap, subst, ◌∙◌, ◌⊎◌, inl, inr, ◌&&◌, Bool-cases, if_both, arith,
}
use obs_osc.Addresses.Routes.{leaf}
use obs_osc.Subscribe.Fanout.{glob}
use obs_osc.Util.Glob.{osc_has_wildcard}
use obs_osc.Util.Visit.{visit_each, visit_source, osc_visit_sources, type_ok, input_kind}
use obs_osc.Obs.Actions.{Handle}
use obs_osc.Obs.Readings.{Reads, Env}
use obs_osc.Schema.Data.{ObsData, GetsSet}
use obs_osc.Schema.Nodes.{contents_key, map_set}
use obs_osc.Schema.Sections.{
  SourceCtx, either_root, source_ctx, source_enum_visit, build_source_section,
}
use obs_osc.Schema.Tree.{
  split_path, find_output, build_rest, build_section, set_sections, output_sections, root_sections,
  build_root, child_of, descend, body_of, walk_segments, osc_query_schema_lookup,
}

abbrev pub IsIn : Bytes → List Bytes → Type 0
IsIn s [] = ⊥
IsIn s (t ∷ ts) = (s ≡ t) ⊎ IsIn s ts

All-IsIn {ℓ} : (P : Bytes → Type ℓ) (ts : List Bytes) (s : Bytes) → All P ts → IsIn s ts → P s
All-IsIn P [] s h i = elim i [ ]
All-IsIn P (t ∷ ts) s (h, hs) (inl e) = subst P (sym e) h
All-IsIn P (t ∷ ts) s (h, hs) (inr i) = All-IsIn P ts s hs i

-- Named in `build_section` by a prefix, whose leaf is empty, or by an address.
abbrev pub hidden_sections : List Bytes
hidden_sections =
    codes "visible"
    ∷ codes "locked"
    ∷ codes "order"
    ∷ codes "filter"
    ∷ codes "active"
    ∷ codes "showing"
    ∷ codes "hotkey"
    ∷ []

abbrev pub listed_sections : List Bytes
listed_sections =
    codes "program"
    ∷ codes "preview"
    ∷ codes "transition"
    ∷ codes "stream"
    ∷ codes "record"
    ∷ codes "replay"
    ∷ codes "virtualcam"
    ∷ codes "studio"
    ∷ codes "screenshot"
    ∷ codes "mute"
    ∷ codes "volume"
    ∷ codes "media"
    ∷ codes "profile"
    ∷ codes "collection"
    ∷ codes "subscribe"
    ∷ codes "unsubscribe"
    ∷ []

module _ {D : Type 0} (d : ObsData D) (env : Env) (r : Reads) where
  hidden : All (λ s. build_section d env r s ≡ none) hidden_sections
  unfolding build_section build_rest find_output str_eq leaf
  hidden = (refl, (refl, (refl, (refl, (refl, (refl, (refl, tt)))))))

  -- Whatever OBS holds, a path whose first segment is "visible", "locked", "order", "filter",
  -- "active", "showing" or "hotkey" is not found.
  pub osc_query_schema_lookup_hidden :
      (path segment : Bytes) (segments : List Bytes)
      → split_path path ≡ segment ∷ segments
      → IsIn segment hidden_sections
      → osc_query_schema_lookup d env r path ≡ []
  unfolding osc_query_schema_lookup walk_segments
  osc_query_schema_lookup_hidden path segment segments split i =
      ap (walk_segments d env r) split
      ∙ ap (λ node. body_of d env r (descend d env r segments node))
          (All-IsIn (λ s. build_section d env r s ≡ none) hidden_sections segment hidden i)

  -- The last section of that name, or what was there before.
  or_else : Option D → Option D → Option D
  or_else (some node) before = some node
  or_else none before = before

  find_last : Bytes → List (Bytes × Option D) → Option D → Option D
  unfolding or_else
  find_last segment [] before = before
  find_last segment ((name, child) ∷ sections) before =
      find_last segment sections (if str_eq name segment then or_else child before else before)

  set_sections-find_last :
      GetsSet d
      → (segment : Bytes) (sections : List (Bytes × Option D)) (contents : D)
      → d.get_obj segment (set_sections d env r sections contents)
        ≡ find_last segment sections (d.get_obj segment contents)
  unfolding set_sections find_last or_else
  set_sections-find_last gets segment [] contents = refl
  set_sections-find_last gets segment ((name, none) ∷ sections) contents =
      set_sections-find_last gets segment sections contents
      ∙ ap (find_last segment sections) (same (Bool-cases (str_eq name segment)))
    where
      same :
          (str_eq name segment ≡ true) ⊎ (str_eq name segment ≡ false)
          → d.get_obj segment contents ≡ (
              if str_eq name segment
              then d.get_obj segment contents
              else d.get_obj segment contents)
      same (inl e) = rw e refl
      same (inr e) = rw e refl
  set_sections-find_last gets segment ((name, some child) ∷ sections) contents =
      set_sections-find_last gets segment sections (map_set d name child contents)
      ∙ ap (find_last segment sections) (gets name segment child contents)

  -- A walk over the sources keeps the root that it fills.
  Rooted : SourceCtx D → Type 0
  Rooted ctx = (root : D) × (either_root ctx.mute (either_root ctx.volume ctx.media) ≡ some root)

  source_enum_visit-Rooted :
      (source : Handle) (m v a : Option D)
      → Rooted (record { mute = m; volume = v; media = a })
      → Rooted (source_enum_visit d env r source (record { mute = m; volume = v; media = a })).0
  unfolding Rooted source_enum_visit
  source_enum_visit-Rooted source (some root) v a h = (_, refl)
  source_enum_visit-Rooted source none (some root) a h = (_, refl)
  source_enum_visit-Rooted source none none (some root) h =
      if_both (λ media. (node : D) × (media ≡ some node)) (r.controllable_media source) _ _
        (_, refl) (root, refl)
  source_enum_visit-Rooted source none none none (root, e) = absurd (ground (arith, e))

  visit_each-Rooted :
      (sources : List Handle) (ctx : SourceCtx D)
      → Rooted ctx
      → Rooted (
          visit_each
            (visit_source (λ _. r) (codes "*") input_kind (source_enum_visit d env r))
            sources
            ctx)
  unfolding visit_each visit_source source_enum_visit
  visit_each-Rooted [] ctx h = h
  visit_each-Rooted (source ∷ sources) ctx h =
      elim (Bool-cases (type_ok r input_kind source && glob (codes "*") (r.source_name source))) [
        | inl e ↦ rw e (
            visit_each-Rooted sources _
              (source_enum_visit-Rooted source ctx.mute ctx.volume ctx.media h))
        | inr e ↦ rw e (visit_each-Rooted sources ctx h)
      ]

  build_source_section-Rooted :
      (which : Bytes) (before : Option D)
      → Rooted (source_ctx d env r which).0
      → or_else (build_source_section d env r which) before ≡ build_source_section d env r which
  unfolding build_source_section osc_visit_sources or_else osc_has_wildcard Rooted
  build_source_section-Rooted which before h =
      let (root, e) = visit_each-Rooted r.sources (source_ctx d env r which).0 h in rw e refl

  in_root :
      (before : Option D)
      → All
          (λ s. find_last s (root_sections d env r) before ≡ build_section d env r s)
          listed_sections
  unfolding find_last or_else root_sections output_sections build_section build_rest find_output
      source_ctx Rooted str_eq leaf
  in_root before = (
    refl,
    (
      refl,
      (
        refl,
        (
          refl,
          (
            refl,
            (
              refl,
              (
                refl,
                (
                  refl,
                  (
                    refl,
                    (
                      build_source_section-Rooted (codes "mute") before (_, refl),
                      (
                        build_source_section-Rooted (codes "volume") before (_, refl),
                        (
                          build_source_section-Rooted (codes "media") before (_, refl),
                          (refl, (refl, (refl, (refl, tt)))),
                        ),
                      ),
                    ),
                  ),
                ),
              ),
            ),
          ),
        ),
      ),
    ),
  )

  found_contents :
      GetsSet d
      → (contents : D)
      → d.get_obj contents_key (d.set_obj contents_key contents d.create) ≡ some contents
  found_contents gets contents =
      subst
        (λ b.
          d.get_obj contents_key (d.set_obj contents_key contents d.create)
          ≡ (if b then some contents else d.get_obj contents_key d.create))
        (str_eq_refl contents_key) (gets contents_key contents_key contents d.create)

  -- The document of the whole tree holds what a path to a section finds.
  child_of-build_root :
      GetsSet d
      → (segment : Bytes) → IsIn segment listed_sections
      → child_of d env r segment (build_root d env r) ≡ build_section d env r segment
  unfolding build_root
  child_of-build_root gets segment i =
      rw (found_contents gets (set_sections d env r (root_sections d env r) d.create), child_of)
        (set_sections-find_last gets segment (root_sections d env r) d.create
          ∙ All-IsIn
              (λ s.
                find_last s (root_sections d env r) (d.get_obj segment d.create)
                ≡ build_section d env r s)
              listed_sections segment (in_root (d.get_obj segment d.create)) i)

  -- A path to one of the other sections finds, though only that section is built, what a walk from the
  -- root of the whole tree finds, where libobs gets from an object what was set in it.
  pub osc_query_schema_lookup_listed :
      GetsSet d
      → (path segment : Bytes) (segments : List Bytes) → split_path path ≡ segment ∷ segments
      → IsIn segment listed_sections
      → osc_query_schema_lookup d env r path
        ≡ body_of d env r (descend d env r (segment ∷ segments) (some (build_root d env r)))
  unfolding osc_query_schema_lookup walk_segments descend
  osc_query_schema_lookup_listed gets path segment segments split i =
      ap (walk_segments d env r) split
      ∙ ap (λ node. body_of d env r (descend d env r segments node))
          (sym (child_of-build_root gets segment i))
