-- ===== src/Manifest/Footer.antt =====
-- Where the four footer fields stand behind the entries.
use opendata_go.Base.{
  refl, append-nil, sym, [], drop-append, drop, arith, ◌∙◌, ap, length-append, ok, ◌+◌, ◌++◌,
  length, ◌≡◌, ◌^◌, ◌<◌, ℕ,
}
use opendata_go.Bytes.{Bytes, le_bytes, read_le}
use opendata_go.Bytes.Laws.{read_at}
use opendata_go.Manifest.{manifest_version}
use opendata_go.Manifest.Layout.{footer_bytes, length-footer_bytes}

module _ (front : Bytes) (count next epoch : ℕ) (hc : count < 2 ^ 32) (hn : next < 2 ^ 64)
    (he : epoch < 2 ^ 64) where
  pub length-with_footer : length (front ++ footer_bytes count next epoch) ≡ length front + 22
  length-with_footer =
      length-append front (footer_bytes count next epoch)
      ∙ ap (λ t. length front + t) (length-footer_bytes count next epoch)

  -- Each field is read at its place.
  pub footer_fields :
      (bytes : Bytes) (n : ℕ)
      → bytes ≡ front ++ footer_bytes count next epoch
      → length front ≡ n
      → (length bytes ≡ n + 22)
        × (read_le 4 bytes n ≡ ok count)
        × (read_le 8 bytes (n + 4) ≡ ok next)
        × (read_le 8 bytes (n + 12) ≡ ok epoch)
        × (read_le 2 bytes (n + 20) ≡ ok manifest_version)
  unfolding footer_bytes
  footer_fields bytes n e size =
      let tail3 = le_bytes 2 manifest_version in
      let tail2 = le_bytes 8 epoch ++ tail3 in
      let tail1 = le_bytes 8 next ++ tail2 in
      let total : length bytes ≡ n + 22 = ap length e ∙ length-with_footer ∙ omega arith in
      let start : drop n bytes ≡ le_bytes 4 count ++ tail1 =
        ap (drop n) e ∙ drop-append n front (footer_bytes count next epoch) size in
      let (c, e1) = read_at 4 count bytes tail1 n (n + 4) start hc refl (omega arith) in
      let (s, e2) = read_at 8 next bytes tail2 (n + 4) (n + 12) e1 hn (omega arith) (omega arith) in
      let (p, e3) =
        read_at 8 epoch bytes tail3 (n + 12) (n + 20) e2 he (omega arith) (omega arith) in
      let (v, _) =
        read_at 2 manifest_version bytes [] (n + 20) (n + 22) (e3 ∙ sym (append-nil tail3))
          (omega arith) (omega arith) (omega arith) in
      (total, c, s, p, v)
