-- ===== src/Xtask/Twice.antt =====
-- `codegen` writes its tables, and a second run changes nothing.
use cantools_rs.Prelude.{
  true, false, Result, ok, err, panic, ◌≡◌, ◌≢◌, refl, ◌∙◌, ap, Bool-cases, inl, inr,
}
use cantools_rs.Prelude.Text.{codes, same_bytes, same_bytes_refl, same_bytes_sound}
use cantools_rs.Core.{Text}
use cantools_rs.Xtask.Files.{TaskError, Files, is_content, write_if_changed}
use cantools_rs.Xtask.Tables.{
  UdsSpec, ObdSpec, J1939Spec, uds_generated, obd_generated, j1939_generated,
}
use cantools_rs.Xtask.Codegen.{Formats, codegen}

-- Files that can be written, keep what is written, and do not change with others.
pub record Stores {S Path' E : Type 0} (files : Files S Path' E) : Type 0 where
  pub put : Path' → Text → S → S
  pub writes :
      (path : Path') (content : Text) (s : S)
      → files.write path content s ≡ (ok tt, put path content s)
  pub written :
      (path : Path') (content : Text) (s : S) → files.read path (put path content s) ≡ ok content
  pub others :
      (path other : Path') (content : Text) (s : S)
      → path ≢ other
      → files.read other (put path content s) ≡ files.read other s

module _ {S Path' E : Type 0} (files : Files S Path' E) (stores : Stores files) where
  is_content_sound :
      (content : Text) (found : Result E Text)
      → is_content files content found ≡ true
      → found ≡ ok content
  is_content_sound content (ok text) h = ap ok (same_bytes_sound text content h)
  is_content_sound content (err e) h = absurd (cc h)
  is_content_sound content panic h = absurd (cc h)

  write_if_changed-reads :
      (path : Path') (content : Text) (s : S)
      → (s' : S) × (write_if_changed files path content s ≡ (ok tt, s'))
        × (files.read path s' ≡ ok content)
        × ((other : Path') → path ≢ other → files.read other s' ≡ files.read other s)
  unfolding write_if_changed
  write_if_changed-reads path content s =
      elim (Bool-cases (is_content files content (files.read path s))) [
        | inl same ↦
            rw same
              (s, refl, is_content_sound content (files.read path s) same, λ other differs. refl)
        | inr differs ↦
            rw (differs, stores.writes path content s)
              (
                stores.put path content s,
                refl,
                stores.written path content s,
                λ other d. stores.others path other content s d,
              )
      ]

  unchanged :
      (path : Path') (content : Text) (s : S)
      → files.read path s ≡ ok content
      → write_if_changed files path content s ≡ (ok tt, s)
  unfolding write_if_changed
  unchanged path content s holds = rw (holds, same_bytes_refl content) refl

-- Other names are other paths.
differ :
    {Path' : Type 0} (at : Text → Path') (a b : Text)
    → ((x y : Text) → at x ≡ at y → x ≡ y)
    → same_bytes a b ≡ false
    → at a ≢ at b
differ at a b injective names same =
    cc (names, ap (same_bytes a) (injective a b same), same_bytes_refl a)

-- Where files keep what is written to them and other files stay as they are, and different names below
-- the root are different paths: if the three specifications can be read and parsed, and each service and
-- each response has its number, `codegen` succeeds, the three files hold the three generated texts
-- afterwards, and running it again succeeds and changes nothing.
pub codegen-again :
    {S Path' E : Type 0} (files : Files S Path' E) (formats : Formats Path' E) (s : S)
    (uds_toml obd_toml j1939_toml uds_text : Text) (uds : UdsSpec) (obd : ObdSpec)
    (j1939 : J1939Spec)
    → Stores files
    → ((x y : Text) → formats.at x ≡ formats.at y → x ≡ y)
    → files.read (formats.at (codes "spec-data/uds/services.toml")) s ≡ ok uds_toml
    → files.read (formats.at (codes "spec-data/obd/pids.toml")) s ≡ ok obd_toml
    → files.read (formats.at (codes "spec-data/j1939/pgns.toml")) s ≡ ok j1939_toml
    → formats.uds uds_toml ≡ ok uds
    → formats.obd obd_toml ≡ ok obd
    → formats.j1939 j1939_toml ≡ ok j1939
    → uds_generated formats.debug {E = TaskError Path' E} uds ≡ ok uds_text
    → (s' : S) × (codegen files formats s ≡ (ok tt, s'))
      × (files.read (formats.at (codes "crates/cantools-uds/src/generated.rs")) s' ≡ ok uds_text)
      × (files.read (formats.at (codes "crates/cantools-obd/src/generated.rs")) s'
          ≡ ok (obd_generated formats.debug obd))
      × (files.read (formats.at (codes "crates/cantools-j1939/src/generated.rs")) s'
          ≡ ok (j1939_generated formats.debug j1939))
      × (codegen files formats s' ≡ (ok tt, s'))
unfolding codegen
codegen-again {S} {Path'} {E} files formats s uds_toml obd_toml j1939_toml uds_text uds obd j1939
      stores injective ru ro rj pu po pj made =
    let at : Text → Path' = formats.at in
    let uds_in : Text = codes "spec-data/uds/services.toml" in
    let obd_in : Text = codes "spec-data/obd/pids.toml" in
    let j1939_in : Text = codes "spec-data/j1939/pgns.toml" in
    let uds_out : Text = codes "crates/cantools-uds/src/generated.rs" in
    let obd_out : Text = codes "crates/cantools-obd/src/generated.rs" in
    let j1939_out : Text = codes "crates/cantools-j1939/src/generated.rs" in
    let (s1, run1, read1, kept1) = write_if_changed-reads files stores (at uds_out) uds_text s in
    let (s2, run2, read2, kept2) =
      write_if_changed-reads files stores (at obd_out) (obd_generated formats.debug obd) s1 in
    let (s3, run3, read3, kept3) =
      write_if_changed-reads files stores (at j1939_out) (j1939_generated formats.debug j1939) s2 in
    let kept : (name : Text)
        → same_bytes uds_out name ≡ false
        → same_bytes obd_out name ≡ false
        → same_bytes j1939_out name ≡ false
        → files.read (at name) s3 ≡ files.read (at name) s =
      λ name a b c.
        kept3 (at name) (differ at j1939_out name injective c)
        ∙ kept2 (at name) (differ at obd_out name injective b)
        ∙ kept1 (at name) (differ at uds_out name injective a) in
    let uds_kept : files.read (at uds_out) s3 ≡ ok uds_text =
      kept3 (at uds_out) (differ at j1939_out uds_out injective refl)
      ∙ kept2 (at uds_out) (differ at obd_out uds_out injective refl)
      ∙ read1 in
    let obd_kept : files.read (at obd_out) s3 ≡ ok (obd_generated formats.debug obd) =
      kept3 (at obd_out) (differ at j1939_out obd_out injective refl) ∙ read2 in
    (
      s3,
      rw (ru, pu, ro, po, rj, pj, made, run1, run2, run3) refl,
      uds_kept,
      obd_kept,
      read3,
      rw
          (
            kept uds_in refl refl refl ∙ ru,
            pu,
            kept obd_in refl refl refl ∙ ro,
            po,
            kept j1939_in refl refl refl ∙ rj,
            pj,
            made,
            unchanged files stores (at uds_out) uds_text s3 uds_kept,
            unchanged files stores (at obd_out) (obd_generated formats.debug obd) s3 obd_kept,
            unchanged files stores (at j1939_out) (j1939_generated formats.debug j1939) s3 read3,
          )
          refl,
    )
