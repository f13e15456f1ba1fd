-- ===== src/Hardened/Storage.antt =====
-- src/broker-1-hardened.ts: the file with the watermark. Node's `fs` and JSON are parameters; what is relied on
-- is that only `rename` changes the file at the state path, and that it puts the temporary file there.
use live_mutex.Prelude.{
  ℕ, zero, suc, ◌≤◌, ◌≡◌, refl, ◌∙◌, ◌⊎◌, inl, inr, Bool, true, false, Option, none, some,
  if◌then◌else◌, Bool-cases,
}
use live_mutex.Framing.{Text}
use live_mutex.Hardened.Watermark.{
  max_fencing_token, parse_watermark_text, decimal, parse_watermark_text-decimal,
}

-- What `JSON.parse` makes of the file: an error, a value with another `schema` or none, or the field `watermark`,
-- `none` if that is no string.
pub data Content : Type 0 where
  unreadable other_schema : Content
  watermark_v1 : Option Text → Content

-- The files at the state path and at the temporary path. An operation that may throw gives the files
-- that it leaves, and whether it came through.
pub record Storage (F : Type 0) : Type 0 where
  pub stringify : Text → Text
  pub parse : Text → Content
  pub read : F → Option Text
  pub temp : F → Option Text
  pub write_temp : Text → F → F × Bool
  pub rename : F → F × Bool
  pub fsync_directory : F → F × Bool
  pub unlink_temp : F → F
  pub parse_stringify : (w : Text) → parse (stringify w) ≡ watermark_v1 (some w)
  pub temp_write : (t : Text) (f : F) → (write_temp t f).1 ≡ true → temp (write_temp t f).0 ≡ some t
  pub read_write : (t : Text) (f : F) → read (write_temp t f).0 ≡ read f
  pub read_rename : (f : F) → (rename f).1 ≡ true → read (rename f).0 ≡ temp f
  pub read_failed : (f : F) → (rename f).1 ≡ false → read (rename f).0 ≡ read f
  pub read_fsync : (f : F) → read (fsync_directory f).0 ≡ read f
  pub read_unlink : (f : F) → read (unlink_temp f) ≡ read f

-- The end of `readPersistedWatermark`.
unfoldable pub watermark_of : Content → Option ℕ
watermark_of unreadable = none
watermark_of other_schema = none
watermark_of (watermark_v1 w) = parse_watermark_text w

module _ {F : Type 0} ⦃st : Storage F⦄ where
  -- `readPersistedWatermark`, with a state path; `none` is the error.
  unfoldable pub read_persisted_watermark : F → Option ℕ
  unfolding watermark_of
  read_persisted_watermark f = elim (st.read f) [
    | none ↦ some 0
    | some t ↦ watermark_of (st.parse t)
  ]

  -- The `rename` and what follows it; an error of `fsync` on the directory comes after the rename.
  unfoldable pub install : F → F × Bool
  install f =
      let (renamed, moved) = st.rename f in
      let (synced, flushed) = st.fsync_directory renamed in
      if moved
      then (if flushed then (synced, true) else (st.unlink_temp synced, false))
      else (st.unlink_temp renamed, false)

  -- `persistWatermarkAtomically`, where `mkdirSync` finds or makes the directory.
  unfoldable pub persist_watermark_atomically : ℕ → F → F × Bool
  unfolding install
  persist_watermark_atomically w f =
      let (written, complete) = st.write_temp (st.stringify (decimal w)) f in
      if complete then install written else (st.unlink_temp written, false)

  -- The files when the process dies in `persistWatermarkAtomically` after some of its steps.
  unfoldable pub interrupted : ℕ → ℕ → F → F
  interrupted zero w f = f
  interrupted (suc zero) w f = (st.write_temp (st.stringify (decimal w)) f).0
  interrupted (suc (suc n)) w f =
      let (written, complete) = st.write_temp (st.stringify (decimal w)) f in
      if complete then (st.rename written).0 else st.unlink_temp written

  -- What the file says is `w`, or what it said before.
  abbrev pub IsOldOrNew : ℕ → F → F → Type 0
  IsOldOrNew w f f' =
      (read_persisted_watermark f' ≡ some w)
      ⊎ (read_persisted_watermark f' ≡ read_persisted_watermark f)

  read_payload :
      (w : ℕ) (f : F)
      → w ≤ max_fencing_token
      → st.read f ≡ some (st.stringify (decimal w))
      → read_persisted_watermark f ≡ some w
  unfolding read_persisted_watermark
  read_payload w f small there =
      rw (there, read_persisted_watermark)
        (rw (st.parse_stringify (decimal w)) (parse_watermark_text-decimal w small))

  same_file :
      (f f' : F) → st.read f' ≡ st.read f → read_persisted_watermark f' ≡ read_persisted_watermark f
  unfolding read_persisted_watermark
  same_file f f' same = rw (same, read_persisted_watermark) refl

  -- A write of `w` leaves `w` or what was there; `w` if it came through.
  pub record Installs (w : ℕ) (f : F) (x : F × Bool) : Type 0 where
    pub complete : x.1 ≡ true → read_persisted_watermark x.0 ≡ some w
    pub either : IsOldOrNew w f x.0

  renamed-read :
      (w : ℕ) (f : F)
      → w ≤ max_fencing_token
      → st.temp f ≡ some (st.stringify (decimal w))
      → (st.rename f).1 ≡ true
      → read_persisted_watermark (st.rename f).0 ≡ some w
  renamed-read w f small temp moved =
      read_payload w (st.rename f).0 small (st.read_rename f moved ∙ temp)

  install-Installs :
      (w : ℕ) (f : F)
      → w ≤ max_fencing_token
      → st.temp f ≡ some (st.stringify (decimal w))
      → Installs w f (install f)
  unfolding install
  install-Installs w f small temp =
      let g = (st.rename f).0 in
      let synced = (st.fsync_directory g).0 in
      elim (Bool-cases (st.rename f).1) [
        | inr kept ↦ rw kept (record {
          complete = λ x. cc;
          either = inr (same_file f (st.unlink_temp g) (st.read_unlink g ∙ st.read_failed f kept));
        })
        | inl moved ↦
            let new = renamed-read w f small temp moved in
            let after = same_file g synced (st.read_fsync g) ∙ new in
            elim (Bool-cases (st.fsync_directory g).1) [
              | inl flushed ↦
                  rw moved (rw flushed (record { complete = λ x. after; either = inl after }))
              | inr not_flushed ↦ rw moved (
                  rw not_flushed (record {
                    complete = λ x. cc;
                    either =
                        inl (
                          same_file synced (st.unlink_temp synced) (st.read_unlink synced) ∙ after);
                  }))
            ]
      ]

  old-IsOldOrNew : (w : ℕ) (f g h : F) → st.read g ≡ st.read f → IsOldOrNew w g h → IsOldOrNew w f h
  old-IsOldOrNew w f g h same (inl new) = inl new
  old-IsOldOrNew w f g h same (inr old) = inr (old ∙ same_file f g same)

  pub persist_watermark_atomically-Installs :
      (w : ℕ) (f : F) → w ≤ max_fencing_token → Installs w f (persist_watermark_atomically w f)
  unfolding persist_watermark_atomically
  persist_watermark_atomically-Installs w f small =
      let t = st.stringify (decimal w) in
      let g = (st.write_temp t f).0 in
      elim (Bool-cases (st.write_temp t f).1) [
        | inl full ↦
            let k = install-Installs w g small (st.temp_write t f full) in
            rw full (record {
              complete = k.complete;
              either = old-IsOldOrNew w f g (install g).0 (st.read_write t f) k.either;
            })
        | inr partial ↦ rw partial (record {
          complete = λ x. cc;
          either = inr (same_file f (st.unlink_temp g) (st.read_unlink g ∙ st.read_write t f));
        })
      ]

  pub interrupted-IsOldOrNew :
      (steps w : ℕ) (f : F) → w ≤ max_fencing_token → IsOldOrNew w f (interrupted steps w f)
  unfolding interrupted
  interrupted-IsOldOrNew zero w f small = inr refl
  interrupted-IsOldOrNew (suc zero) w f small =
      inr (same_file f _ (st.read_write (st.stringify (decimal w)) f))
  interrupted-IsOldOrNew (suc (suc n)) w f small =
      let t = st.stringify (decimal w) in
      let g = (st.write_temp t f).0 in
      elim (Bool-cases (st.write_temp t f).1) [
        | inr partial ↦
            rw partial (inr (same_file f (st.unlink_temp g) (st.read_unlink g ∙ st.read_write t f)))
        | inl full ↦ rw full (elim (Bool-cases (st.rename g).1) [
          | inl moved ↦ inl (renamed-read w g small (st.temp_write t f full) moved)
          | inr kept ↦ inr (same_file f (st.rename g).0 (st.read_failed g kept ∙ st.read_write t f))
        ])
      ]
