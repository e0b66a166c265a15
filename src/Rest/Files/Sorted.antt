-- ===== src/Rest/Files/Sorted.antt =====
-- What the download of candle files promises.
use okx_cpp_api.Prelude.{
  subst, ◌≡◌, refl, sym, ap, ◌∙◌, inl, inr, List, [], ◌∷◌, ◌++◌, append-nil, append_assoc, arith,
  Bool-cases, All, All-map, Bytes,
}
use mathlib.Core.List.{Perm}
use mathlib.Core.List.Perm
use okx_cpp_api.Prelude.Int.{ℤ, ltb_ℤ, ◌≤ℤ◌}
use okx_cpp_api.Result.{Result, ok, Result-cases}
use okx_cpp_api.Models.{Candle, Decimal}
use okx_cpp_api.Csv.{parse_candles_csv}
use okx_cpp_api.Http.{Network, download_binary}
use okx_cpp_api.Models.Archive.{MarketDataFileInfo, MarketDataGroupDetail, MarketDataHistory}
use okx_cpp_api.Rest.Files.{
  insert_candle, sort_candles, file_candles, group_candles, detail_candles, download_and_parse,
}

abbrev pub NotBefore : {D : Type 0} → ℤ → List (Candle D) → Type 0
NotBefore t cs = All (λ c. t ≤ℤ c.ts) cs

-- Oldest first.
pub data IsSorted {D : Type 0} : List (Candle D) → Type 0 where
  nil : IsSorted []
  cons : (c : Candle D) (cs : List (Candle D)) → NotBefore c.ts cs → IsSorted cs → IsSorted (c ∷ cs)

module _ {D : Type 0} where
  NotBefore-trans : (a b : ℤ) (cs : List (Candle D)) → a ≤ℤ b → NotBefore b cs → NotBefore a cs
  NotBefore-trans a b cs h n = All-map (λ c. b ≤ℤ c.ts) (λ c. a ≤ℤ c.ts) (λ c k. omega arith) cs n

  insert_candle-NotBefore :
      (t : ℤ) (c : Candle D) (cs : List (Candle D))
      → t ≤ℤ c.ts
      → NotBefore t cs
      → NotBefore t (insert_candle c cs)
  unfolding insert_candle
  insert_candle-NotBefore t c [] h n = (h, tt)
  insert_candle-NotBefore t c (d ∷ ds) h (first, n) = elim (Bool-cases (ltb_ℤ d.ts c.ts)) [
    | inl y ↦ rw y (first, insert_candle-NotBefore t c ds h n)
    | inr y ↦ rw y (h, (first, n))
  ]

  insert_candle-IsSorted :
      (c : Candle D) (cs : List (Candle D)) → IsSorted cs → IsSorted (insert_candle c cs)
  unfolding insert_candle
  insert_candle-IsSorted c [] s = cons c [] tt nil
  insert_candle-IsSorted c (d ∷ ds) (cons _ _ n s) = elim (Bool-cases (ltb_ℤ d.ts c.ts)) [
    | inl y ↦
        let before : d.ts ≤ℤ c.ts = ground arith in
        rw y (
          cons d (insert_candle c ds) (insert_candle-NotBefore d.ts c ds before n)
            (insert_candle-IsSorted c ds s))
    | inr y ↦
        let before : c.ts ≤ℤ d.ts = ground arith in
        rw y (cons c (d ∷ ds) (before, NotBefore-trans c.ts d.ts ds before n) (cons d ds n s))
  ]

  insert_candle-perm : (c : Candle D) (cs : List (Candle D)) → Perm (insert_candle c cs) (c ∷ cs)
  unfolding insert_candle
  insert_candle-perm c [] = Perm.refl (c ∷ [])
  insert_candle-perm c (d ∷ ds) = elim (Bool-cases (ltb_ℤ d.ts c.ts)) [
    | inl y ↦ rw y (Perm.trans (Perm.cons d (insert_candle-perm c ds)) (Perm.swap c d ds))
    | inr y ↦ rw y (Perm.refl (c ∷ d ∷ ds))
  ]

  pub sort_candles-IsSorted : (cs : List (Candle D)) → IsSorted (sort_candles cs)
  unfolding sort_candles
  sort_candles-IsSorted [] = nil
  sort_candles-IsSorted (c ∷ cs) =
      insert_candle-IsSorted c (sort_candles cs) (sort_candles-IsSorted cs)

  pub sort_candles-perm : (cs : List (Candle D)) → Perm (sort_candles cs) cs
  unfolding sort_candles
  sort_candles-perm [] = Perm.refl []
  sort_candles-perm (c ∷ cs) =
      Perm.trans (insert_candle-perm c (sort_candles cs)) (Perm.cons c (sort_candles-perm cs))

-- The files of all groups, in their order.
abbrev pub all_files : List MarketDataGroupDetail → List MarketDataFileInfo
all_files [] = []
all_files (detail ∷ details) = detail.group_details ++ all_files details

module _ {D : Type 0} (decimal : Decimal D) (network : Network) (version : Bytes)
    (extract_zip : Bytes → Result Bytes) where
  -- The texts in the files: each file is downloaded and unpacked.
  pub data AreContents : List MarketDataFileInfo → List Bytes → Type 0 where
    nil : AreContents [] []
    cons :
        (f : MarketDataFileInfo) (zip content : Bytes) (fs : List MarketDataFileInfo)
        (contents : List Bytes)
        → download_binary network version f.url ≡ ok zip
        → extract_zip zip ≡ ok content
        → AreContents fs contents
        → AreContents (f ∷ fs) (content ∷ contents)

  -- The candles in a list of texts.
  abbrev pub candles_of : List Bytes → List (Candle D)
  candles_of [] = []
  candles_of (content ∷ contents) = parse_candles_csv decimal content ++ candles_of contents

  AreContents-append :
      (fs gs : List MarketDataFileInfo) (cs ds : List Bytes)
      → AreContents fs cs
      → AreContents gs ds
      → AreContents (fs ++ gs) (cs ++ ds)
  AreContents-append [] gs [] ds nil q = q
  AreContents-append [] gs (c ∷ cs) ds p q = elim p [ ]
  AreContents-append (f ∷ fs) gs [] ds p q = elim p [ ]
  AreContents-append (f ∷ fs) gs (c ∷ cs) ds (cons _ zip _ _ _ d e p) q =
      cons f zip c (fs ++ gs) (cs ++ ds) d e (AreContents-append fs gs cs ds p q)

  pub candles_of-append :
      (cs ds : List Bytes) → candles_of (cs ++ ds) ≡ candles_of cs ++ candles_of ds
  candles_of-append [] ds = refl
  candles_of-append (c ∷ cs) ds =
      rw (candles_of-append cs ds)
        (sym (append_assoc (parse_candles_csv decimal c) (candles_of cs) (candles_of ds)))

  file_candles_contents :
      (f : MarketDataFileInfo) (cs : List (Candle D))
      → file_candles decimal network version extract_zip f ≡ ok cs
      → (zip content : Bytes) × (download_binary network version f.url ≡ ok zip)
        × (extract_zip zip ≡ ok content)
        × (cs ≡ parse_candles_csv decimal content)
  unfolding file_candles
  file_candles_contents f cs h = elim (Result-cases (download_binary network version f.url)) [
    | inr (e, d) ↦ cc (rw d at h)
    | inl (zip, d) ↦ elim (Result-cases (extract_zip zip)) [
      | inr (e, x) ↦ cc (rw (d, x) at h)
      | inl (content, x) ↦
          let given : ok (parse_candles_csv decimal content) ≡ ok cs = rw (d, x) at h in
          (zip, content, d, x, cc)
    ]
  ]

  group_candles_contents :
      (files : List MarketDataFileInfo) (before out : List (Candle D))
      → group_candles decimal network version extract_zip before files ≡ ok out
      → (contents : List Bytes) × AreContents files contents × (out ≡ before ++ candles_of contents)
  unfolding group_candles
  group_candles_contents [] before out h = ([], nil, rw append-nil cc)
  group_candles_contents (f ∷ files) before out h =
      elim (Result-cases (file_candles decimal network version extract_zip f)) [
        | inr (e, k) ↦ cc (rw k at h)
        | inl (cs, k) ↦
            let (zip, content, d, x, e) = file_candles_contents f cs k in
            let (contents, are, q) = group_candles_contents files (before ++ cs) out (rw k at h) in
            (
              content ∷ contents,
              cons f zip content files contents d x are,
              q
                  ∙ (append_assoc before cs (candles_of contents)
                      ∙ ap (λ l. before ++ (l ++ candles_of contents)) e),
            )
      ]

  detail_candles_contents :
      (details : List MarketDataGroupDetail) (before out : List (Candle D))
      → detail_candles decimal network version extract_zip before details ≡ ok out
      → (contents : List Bytes) × AreContents (all_files details) contents
        × (out ≡ before ++ candles_of contents)
  unfolding detail_candles
  detail_candles_contents [] before out h = ([], nil, rw append-nil cc)
  detail_candles_contents (g ∷ details) before out h =
      elim (Result-cases
        (group_candles decimal network version extract_zip before g.group_details)) [
          | inr (e, k) ↦ cc (rw k at h)
          | inl (mid, k) ↦
              let (cs, are, p) = group_candles_contents g.group_details before mid k in
              let (ds, later, q) = detail_candles_contents details mid out (rw k at h) in
              (
                cs ++ ds,
                AreContents-append g.group_details (all_files details) cs ds are later,
                q
                    ∙ (ap (λ l. l ++ candles_of ds) p
                        ∙ (append_assoc before (candles_of cs) (candles_of ds)
                            ∙ ap (λ l. before ++ l) (sym (candles_of-append cs ds)))),
              )
        ]

  -- If the download of a list of candle files gives candles, every file of every group was downloaded
  -- and unpacked, and the candles are those of the texts in all of the files, each as often as they
  -- hold it, with the oldest first.
  pub download_and_parse-IsSorted :
      (history : MarketDataHistory) (out : List (Candle D))
      → download_and_parse decimal network version extract_zip history ≡ ok out
      → (contents : List Bytes) × AreContents (all_files history.details) contents
        × IsSorted out
        × Perm out (candles_of contents)
  unfolding download_and_parse
  download_and_parse-IsSorted history out h =
      elim (Result-cases (detail_candles decimal network version extract_zip [] history.details)) [
        | inr (e, k) ↦ cc (rw k at h)
        | inl (all, k) ↦
            let (contents, are, q) = detail_candles_contents history.details [] all k in
            let given : ok (sort_candles all) ≡ ok out = rw k at h in
            let sorted : sort_candles all ≡ out = cc in
            (
              contents,
              are,
              subst IsSorted sorted (sort_candles-IsSorted all),
              subst (λ l. Perm l (candles_of contents)) sorted
                  (subst (λ l. Perm (sort_candles all) l) q (sort_candles-perm all)),
            )
      ]
