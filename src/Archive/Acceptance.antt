-- ===== src/Archive/Acceptance.antt =====
-- Which packages `validate_apk_archive` accepts (fraudshield/deceptiscope/validator.py).
use boi.Prelude.Floats.{Floats}
use boi.Prelude.{
  ◌≤◌, ◌≡◌, refl, sym, ap, ◌∙◌, true, false, Option, none, some, List, [], ◌==◌, string_eq, nat_eq,
  contains, Distinct, All, arith, Bool-cases, ltb, length, inl, inr,
}
use boi.Archive.Validate.{
  Entry, Upload, Limits, Scan, empty_scan, scan, is_zip, is_bomb, Summary, summary, finish,
  and_finish, validate_entries, validate_apk_archive, ok, err, Result,
}
use boi.Archive.Names.{
  IsSafe, filenames, uncompressed, compressed, after, Clean, scan-Clean, scan-after, after_totals,
  after_names, Clean-iff,
}

-- A file that looks like a ZIP archive, within the limit of the upload.
pub record IsFile (l : Limits) (u : Upload) : Type 0 where
  pub present : u.is_file ≡ true
  pub some_bytes : 1 ≤ u.size
  pub small : u.size ≤ l.max_apk_bytes
  pub zip : is_zip u.magic ≡ true

module _ (fs : Floats) where
  -- A directory that may be unpacked.
  pub record IsAcceptable (l : Limits) (es : List Entry) : Type 0 where
    pub few : length es ≤ l.max_zip_entries
    pub safe : All IsSafe es
    pub distinct : Distinct (filenames es)
    pub bounded : uncompressed es ≤ l.max_zip_uncompressed_bytes
    pub manifest : contains "AndroidManifest.xml" (filenames es) ≡ true
    pub no_bomb : is_bomb fs (after es empty_scan) ≡ false

  -- What the report says of the entries.
  abbrev Tells : Summary fs → List Entry → Type 0
  Tells r es =
      (r.entry_count ≡ length es)
      × (r.uncompressed_bytes ≡ uncompressed es)
      × (r.compressed_bytes ≡ compressed es)

  and_finish-ok :
      (l : Limits) (es : List Entry) (o : Result Scan) (r : Summary fs)
      → and_finish fs l es o ≡ ok r
      → (s : Scan) × (o ≡ ok s) × (finish fs l es s ≡ ok r)
  and_finish-ok l es (ok s) r h = (s, refl, h)
  and_finish-ok l es (err e) r h = cc

  finish-ok :
      (l : Limits) (es : List Entry) (s : Scan) (r : Summary fs)
      → finish fs l es s ≡ ok r
      → (s.total_uncompressed ≤ l.max_zip_uncompressed_bytes)
        × (contains "AndroidManifest.xml" s.names ≡ true)
        × (is_bomb fs s ≡ false)
        × (r.entry_count ≡ length es)
        × (r.uncompressed_bytes ≡ s.total_uncompressed)
        × (r.compressed_bytes ≡ s.total_compressed)
  unfolding finish summary
  finish-ok l es s r h = elim (Bool-cases (ltb l.max_zip_uncompressed_bytes s.total_uncompressed)) [
    | inl large ↦ cc (rw large at h)
    | inr fits ↦ elim (Bool-cases (contains "AndroidManifest.xml" s.names)) [
      | inr missing ↦ cc (rw (fits, missing) at h)
      | inl there ↦ elim (Bool-cases (is_bomb fs s)) [
        | inl bomb ↦ cc (rw (fits, there, bomb) at h)
        | inr fine ↦
            let e = ok_inj (rw (fits, there, fine) at h) in
            (
              ground arith,
              there,
              fine,
              sym (ap (λ (x : Summary fs). x.entry_count) e),
              sym (ap (λ (x : Summary fs). x.uncompressed_bytes) e),
              sym (ap (λ (x : Summary fs). x.compressed_bytes) e),
            )
      ]
    ]
  ]
    where
      ok_inj : {a b : Summary fs} → ok a ≡ ok b → a ≡ b
      ok_inj e = cc

  entries-IsAcceptable :
      (l : Limits) (es : List Entry) (r : Summary fs)
      → validate_entries fs l (some es) ≡ ok r
      → IsAcceptable l es × Tells r es
  unfolding validate_entries
  entries-IsAcceptable l es r h = elim (Bool-cases (ltb l.max_zip_entries (length es))) [
    | inl many ↦ cc (rw many at h)
    | inr few ↦
        let (s, scanned, finished) = and_finish-ok l es (scan es empty_scan) r (rw few at h) in
        let (clean, same) = scan-Clean es empty_scan s scanned in
        let (fits, there, fine, counted, up, down) =
          finish-ok l es (after es empty_scan) r
            (ap (λ x. finish fs l es x) (sym same) ∙ finished) in
        let (safe, distinct, apart) = (Clean-iff [] es).0 clean in
        let totals = after_totals es empty_scan in
        (
          record {
            few = ground arith;
            safe = safe;
            distinct = distinct;
            bounded = omega (arith, fits, totals);
            manifest = sym (after_names es empty_scan "AndroidManifest.xml") ∙ there;
            no_bomb = fine;
          },
          (counted, omega (arith, up, totals), omega (arith, down, totals)),
        )
  ]

  opened :
      (l : Limits) (r : Summary fs) (o : Option (List Entry))
      → validate_entries fs l o ≡ ok r
      → (es : List Entry) × (o ≡ some es) × (validate_entries fs l (some es) ≡ ok r)
  unfolding validate_entries
  opened l r none e = cc
  opened l r (some es) e = (es, refl, e)

  -- What is accepted is safe. Where `validate_apk_archive` returns a report, the file is there, is
  -- not empty, is within the limit and begins as a ZIP archive does; its entries are within the
  -- limit, all of them have valid names that stay inside the archive, and none is encrypted or a
  -- symbolic link; no name stands twice; their sizes add up to at most the limit, the manifest is
  -- among them, and they are no compression bomb; and the report tells their number and their sums.
  pub accepted-IsAcceptable :
      (l : Limits) (u : Upload) (r : Summary fs)
      → validate_apk_archive fs l u ≡ ok r
      → (es : List Entry) × (u.entries ≡ some es)
        × IsFile l u
        × IsAcceptable l es
        × (r.entry_count ≡ length es)
        × (r.uncompressed_bytes ≡ uncompressed es)
        × (r.compressed_bytes ≡ compressed es)
  unfolding validate_apk_archive
  accepted-IsAcceptable l u r h = elim (Bool-cases u.is_file) [
    | inr missing ↦ cc (rw missing at h)
    | inl present ↦ elim (Bool-cases (u.size == 0)) [
      | inl empty ↦ cc (rw (present, empty) at h)
      | inr full ↦ elim (Bool-cases (ltb l.max_apk_bytes u.size)) [
        | inl large ↦ cc (rw (present, full, large) at h)
        | inr small ↦ elim (Bool-cases (is_zip u.magic)) [
          | inr other ↦ cc (rw (present, full, small, other) at h)
          | inl zip ↦
              let (es, listed, entered) =
                opened l r u.entries (rw (present, full, small, zip) at h) in
              let (acceptable, told) = entries-IsAcceptable l es r entered in
              (
                es,
                listed,
                record {
                  present = present;
                  some_bytes = ground arith;
                  small = ground arith;
                  zip = zip;
                },
                acceptable,
                told.0,
                told.1,
                told.2,
              )
        ]
      ]
    ]
  ]

  finish_returns :
      (l : Limits) (es : List Entry) (s : Scan)
      → s.total_uncompressed ≤ l.max_zip_uncompressed_bytes
      → contains "AndroidManifest.xml" s.names ≡ true
      → is_bomb fs s ≡ false
      → (r : Summary fs) × (finish fs l es s ≡ ok r)
  unfolding finish
  finish_returns l es s fits there fine =
      let within : ltb l.max_zip_uncompressed_bytes s.total_uncompressed ≡ false = ground arith in
      (summary fs es s, rw (within, there, fine) refl)

  -- What is safe is accepted: a file with an acceptable directory gets its report.
  pub IsAcceptable-accepted :
      (l : Limits) (u : Upload) (es : List Entry)
      → IsFile l u
      → u.entries ≡ some es
      → IsAcceptable l es
      → (r : Summary fs) × (validate_apk_archive fs l u ≡ ok r)
  unfolding validate_apk_archive validate_entries
  IsAcceptable-accepted l u es f listed a =
      let clean : Clean [] es = (Clean-iff [] es).1 (a.safe, a.distinct, λ x m. refl) in
      let (r, finished) =
        finish_returns l es (after es empty_scan)
          (omega (arith, after_totals es empty_scan, a.bounded))
          (after_names es empty_scan "AndroidManifest.xml" ∙ a.manifest) a.no_bomb in
      let full : (u.size == 0) ≡ false = ground (arith, f.some_bytes) in
      let small : ltb l.max_apk_bytes u.size ≡ false = ground (arith, f.small) in
      let few : ltb l.max_zip_entries (length es) ≡ false = ground (arith, a.few) in
      (
        r,
        rw (f.present, full, small, f.zip, listed)
            (rw few (ap (and_finish fs l es) (scan-after es empty_scan clean) ∙ finished)),
      )
