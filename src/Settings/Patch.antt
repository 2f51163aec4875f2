-- ===== src/Settings/Patch.antt =====
-- What `patch` promises to those who read the settings, and to those who change them at once.
use quotio_cli.Base.{
  ℕ, ◌≤◌, ◌<◌, ◌^◌, String, ◌≡◌, ◌≢◌, ◌⊎◌, refl, sym, ap, subst, ◌∙◌, true, false, List, [], ◌∷◌,
  Option, none, some, arith, ltb, Result, ok, err, ◌==◌, string_eq, nat_eq, ==_iff, byte_len, All,
  Bool-cases, Option-cases, Result-cases, inl, inr,
}
use quotio_cli.Fingerprint.{message}
use quotio_cli.Fingerprint.Injective.{fingerprint_injective}
use quotio_cli.Provider.{Provider}
use quotio_cli.Config.{Config, Toml, parse}
use quotio_cli.Settings.{
  Overrides, SettingsView, SettingsPatch, SettingsError, invalid, conflict, overridden, storage,
  Env, validate, read_text, read, effective, load, patched, is_overridden, store, written, Saved,
  saved, unsynced, unsaved, patch, revision_of, text_of,
}

single : (s t : String) → s ∷ [] ≡ t ∷ [] → s ≡ t
single s t h = ground arith

sized : (text : String) → byte_len text ≤ 65536 → byte_len text < 2 ^ 64
sized text h = omega arith

module _ (sha256 : List ℕ → List ℕ) (from_str : String → Option Provider) {F : Type 0}
    (T : Toml F) where
  pub read_text-ok :
      (text : String) (config : Config F) (revision : String)
      → read_text sha256 from_str T text ≡ ok (config, revision)
      → (byte_len text ≤ 65536)
        × (revision_of sha256 text ≡ revision)
        × (parse T text ≡ ok config)
        × (validate from_str config ≡ true)
  read_text-ok text config revision h = elim (Result-cases (parse T text)) [
    | inl (other, parsed) ↦ ground arith
    | inr (e, failed) ↦ absurd (ground arith)
  ]

  pub read-ok :
      (env : Env) (stored : Option String) (config : Config F) (revision : String)
      → read sha256 from_str T env stored ≡ ok (config, revision)
      → read_text sha256 from_str T (text_of stored) ≡ ok (config, revision)
  unfolding read
  read-ok env none config revision h = h
  read-ok env (some text) config revision h = ground arith

  module _ (overrides : Overrides) where
    abbrev Answer : Type 0
    Answer = Option String × Result SettingsError (SettingsView F)

    -- The file keeps its text, and the answer is an error.
    abbrev pub IsRefused : Option String → Answer → Type 0
    IsRefused stored r = (e : SettingsError) × (r ≡ (stored, err e))

    -- The file has a new text, that of a valid configuration.
    abbrev IsWritten : Config F → Answer → Type 0
    IsWritten config r =
        (text : String) × (validate from_str config ≡ true)
        × (T.print config ≡ some text)
        × ((r ≡ (some text, ok (effective overrides config (revision_of sha256 text))))
            ⊎ (r ≡ (some text, err storage)))

    written-cases :
        (w : Saved) (stored : Option String) (text : String) (config : Config F)
        → IsRefused stored (written sha256 from_str T overrides w stored text config)
          ⊎ ((written sha256 from_str T overrides w stored text config
                ≡ (some text, ok (effective overrides config (revision_of sha256 text))))
              ⊎ (written sha256 from_str T overrides w stored text config
                  ≡ (some text, err storage)))
    written-cases saved stored text config = inr (inl refl)
    written-cases unsynced stored text config = inr (inr refl)
    written-cases unsaved stored text config = inl (storage, refl)

    store-cases :
        (env : Env) (stored : Option String) (config : Config F)
        → IsRefused stored (store sha256 from_str T overrides env stored config)
          ⊎ IsWritten config (store sha256 from_str T overrides env stored config)
    store-cases env stored config = elim (Bool-cases (validate from_str config)) [
      | inr bad ↦ inl (invalid, ground arith)
      | inl valid ↦ elim (Option-cases (T.print config)) [
        | inl none_printed ↦ inl (invalid, ground arith)
        | inr (text, printed) ↦ elim (Bool-cases env.random) [
          | inr failed ↦ inl (storage, ground arith)
          | inl random ↦ elim (written-cases env.write stored text config) [
            | inl refused ↦ rw (valid, printed, random) (inl refused)
            | inr result ↦ rw (valid, printed, random) (inr (text, refl, refl, result))
          ]
        ]
      ]
    ]

    abbrev IsApplied : Env → SettingsPatch → Option String → Answer → Type 0
    IsApplied env change stored r =
        (config : Config F) × (read sha256 from_str T env stored ≡ ok (config, change.revision))
        × (is_overridden overrides change ≡ false)
        × IsWritten (patched change config) r

    patch-stores :
        (env : Env) (change : SettingsPatch) (stored : Option String) (config : Config F)
        (revision : String)
        → env.lock ≡ none
        → read sha256 from_str T env stored ≡ ok (config, revision)
        → (change.revision == revision) ≡ true
        → is_overridden overrides change ≡ false
        → patch sha256 from_str T overrides env change stored
          ≡ store sha256 from_str T overrides env stored (patched change config)
    unfolding patch
    patch-stores env change stored config revision free found current own = ground arith

    patch-cases :
        (env : Env) (change : SettingsPatch) (stored : Option String)
        → IsRefused stored (patch sha256 from_str T overrides env change stored)
          ⊎ IsApplied env change stored (patch sha256 from_str T overrides env change stored)
    unfolding patch
    patch-cases env change stored = elim (Option-cases env.lock) [
      | inr (e, locked) ↦ inl (e, ground arith)
      | inl free ↦ elim (Result-cases (read sha256 from_str T env stored)) [
        | inr (e, failed) ↦ inl (e, ground arith)
        | inl ((config, revision), found) ↦ elim (Bool-cases (change.revision == revision)) [
          | inr stale ↦ inl (conflict, ground arith)
          | inl current ↦ elim (Bool-cases (is_overridden overrides change)) [
            | inl overruled ↦ inl (overridden, ground arith)
            | inr own ↦
                let same =
                  subst (λ r. read sha256 from_str T env stored ≡ ok (config, r))
                    (sym ((==_iff change.revision revision).0 current)) found in
                elim (store-cases env stored (patched change config)) [
                  | inl refused ↦ inl (
                      rw (patch-stores env change stored config revision free found current own)
                        refused)
                  | inr result ↦ inr (
                    config,
                    same,
                    own,
                    rw (patch-stores env change stored config revision free found current own)
                        result,
                  )
                ]
          ]
        ]
      ]
    ]

    parse-printed :
        (text : String) (config : Config F) → T.read text ≡ ok config → parse T text ≡ ok config
    unfolding parse
    parse-printed text config h = ground arith

    load-printed :
        (env : Env) (text : String) (config : Config F)
        → env.unreadable ≡ false
        → T.read text ≡ ok config
        → validate from_str config ≡ true
        → ((byte_len text ≤ 65536)
            × (load sha256 from_str T overrides env (some text)
                ≡ ok (effective overrides config (revision_of sha256 text))))
          ⊎ ((65536 < byte_len text)
              × ((e : SettingsError) × (load sha256 from_str T overrides env (some text) ≡ err e)))
    unfolding load read
    load-printed env text config readable known valid =
        elim (Bool-cases (ltb 65536 (byte_len text))) [
          | inl long ↦ inr (ground arith, rw (readable, long) (_, refl))
          | inr fits ↦
              inl (ground arith, rw (readable, fits, parse-printed text config known, valid) refl)
        ]

    -- Where `patch` answers with a view, then whenever the file can be read after it, either its
    -- new text has at most 65536 bytes and `load` gives that very view, or the text is longer
    -- and `load` gives an error. TOML reads back each configuration that it prints.
    pub patch-load :
        (env after : Env) (change : SettingsPatch) (stored : Option String) (view : SettingsView F)
        → ((config : Config F) (text : String)
            → T.print config ≡ some text
            → T.read text ≡ ok config)
        → after.unreadable ≡ false
        → (patch sha256 from_str T overrides env change stored).1 ≡ ok view
        → let new = (patch sha256 from_str T overrides env change stored).0 in
          ((byte_len (text_of new) ≤ 65536)
            × (load sha256 from_str T overrides after new ≡ ok view))
          ⊎ ((65536 < byte_len (text_of new))
              × ((e : SettingsError) × (load sha256 from_str T overrides after new ≡ err e)))
    patch-load env after change stored view prints readable h =
        elim (patch-cases env change stored) [
          | inl (e, refused) ↦ absurd (ground arith)
          | inr (config, found, own, (text, valid, printed, result)) ↦ elim result [
            | inr failed ↦ absurd (ground arith)
            | inl done ↦
                rw done
                  (elim (load-printed after text (patched change config) readable
                    (prints _ text printed) valid) [
                      | inl (fits, loaded) ↦ inl (fits, loaded ∙ (sym (ap (λ r. r.1) done) ∙ h))
                      | inr long ↦ inr long
                    ])
          ]
        ]

    abbrev revision_in : Result SettingsError (SettingsView F) → String
    revision_in (ok view) = view.revision
    revision_in (err e) = ""

    load-revision :
        (env : Env) (stored : Option String) (view : SettingsView F)
        → load sha256 from_str T overrides env stored ≡ ok view
        → (byte_len (text_of stored) ≤ 65536)
          × (revision_of sha256 (text_of stored) ≡ view.revision)
    unfolding load effective
    load-revision env stored view h = elim (Result-cases (read sha256 from_str T env stored)) [
      | inr (e, failed) ↦ absurd (ground (arith, rw failed at h))
      | inl ((config, revision), found) ↦
          let (small, revised, parsed, valid) =
            read_text-ok _ config revision (read-ok env stored config revision found) in
          let seen = rw found at h in (small, revised ∙ ap revision_in seen)
    ]

    -- A patch that is made with the revision of a view that was loaded is refused, and leaves
    -- the file as it is, whenever the file has another text by then than when the view was
    -- loaded, whatever has happened to it between, and whatever the operating system answers.
    -- SHA-256 gives bytes and does not send the messages of the two texts to one digest.
    pub patch-conflict :
        (env later : Env) (view : SettingsView F) (change : SettingsPatch)
        (stored now : Option String)
        → ((m : List ℕ) → All (λ b. b < 256) (sha256 m))
        → (sha256 (message (text_of now ∷ [])) ≡ sha256 (message (text_of stored ∷ []))
            → message (text_of now ∷ []) ≡ message (text_of stored ∷ []))
        → load sha256 from_str T overrides env stored ≡ ok view
        → change.revision ≡ view.revision
        → text_of now ≢ text_of stored
        → IsRefused now (patch sha256 from_str T overrides later change now)
    patch-conflict env later view change stored now octets free loaded same changed =
        elim (patch-cases later change now) [
          | inl refused ↦ refused
          | inr (latest, seen, own, written_later) ↦
              let (small, revised) = load-revision env stored view loaded in
              let (small', revised', parsed, valid) =
                read_text-ok _ latest change.revision
                  (read-ok later now latest change.revision seen) in
              absurd (
                changed (
                  single _ _ (
                    fingerprint_injective sha256 (text_of now ∷ []) (text_of stored ∷ []) octets
                      free (sized _ small', tt) (sized _ small, tt)
                      (revised' ∙ (same ∙ sym revised)))))
        ]
