-- ===== src/Console/ServerFns/Probe.antt =====
-- crates/ui/src/server_fns/settings.rs: what the check of the data directory tells and leaves.
use ferrobucket.Base.{◌≡◌, ◌≢◌, refl, ap, ◌∙◌, subst, true, false, arith, inl, inr, ◌⊎◌}
use ferrobucket.Base.Text.{codes}
use ferrobucket.FilePath.{FilePath, parent, IsPlain, join-IsPlain}
use ferrobucket.Error.{Outcome, ok, err, IoError}
use ferrobucket.Disk.{Disk, lookup}
use ferrobucket.Disk.Calls.{is_dir, remove_file}
use ferrobucket.Persist.Partial.Left.{Cut, WrittenAs, After-write}
use ferrobucket.Act.{World}
use ferrobucket.Act.After.{
  After, After-mono, After-bind, After-attempt, After-call, AfterAt, AfterAt-both,
}
use ferrobucket.Host.{Host}
use ferrobucket.Storage.Buckets.Keep.{FilesKept, remove_file-FilesKept}
use ferrobucket.Console.ServerFns.{AppState, StatusInfo, probe_path, probe_writable, probed}

-- Files are kept where another path has changed.
others-FilesKept :
    (p : FilePath) (d d' : Disk)
    → ((q : FilePath) → p ≢ q → lookup q d' ≡ lookup q d)
    → FilesKept p d d'
others-FilesKept p d d' others q b ne there = others q ne ∙ there

IsPlain-probe : IsPlain (codes ".ferrobucket-writable-probe")
IsPlain-probe = record {
  no_slash = omega arith;
  not_empty = λ e. cc;
  not_dot = λ e. cc;
  not_dot_dot = λ e. cc;
}

parent-probe_path : (state : AppState) → parent (probe_path state) ≡ state.data_root
parent-probe_path state =
    ap parent (join-IsPlain state.data_root (codes ".ferrobucket-writable-probe") IsPlain-probe)
    ∙ unfold parent in refl

module _ {H : Type 0} (host : Host H) (state : AppState) where
  -- A report that is not favourable, or of a directory that is there.
  abbrev Sound : World → StatusInfo → Type 0
  Sound w info = (info.writable ≡ false) ⊎ (is_dir state.data_root w.disk ≡ true)

  -- Whichever calls fail, the check of the data directory answers, it reports the directory as
  -- writable only if it is there, and it leaves every file as it was, but for the probe itself.
  pub After-probe_writable :
      (w : World)
      → After
          (λ info w'. FilesKept (probe_path state) w.disk w'.disk × Sound w info)
          (λ _ _. ⊥)
          (probe_writable state host)
          w
  unfolding probe_writable
  After-probe_writable w = After-bind (
      After-mono
        (After-attempt {Q = λ _ w₁. Written w₁} {R = λ _ w₁. Kept w₁} (
          After-mono (After-write host (probe_path state) (codes "probe") w)
            (λ _ w₁ (made, root). written w₁ made root) (λ _ w₁ left. unwritten w₁ left)))
        (λ r w₁ k. told r w₁ k) (λ _ _ x. x))
    where
      Kept : World → Type 0
      Kept w₁ = FilesKept (probe_path state) w.disk w₁.disk

      Written : World → Type 0
      Written w₁ = Kept w₁ × (is_dir state.data_root w.disk ≡ true)

      written :
          (w₁ : World)
          → WrittenAs (probe_path state) (codes "probe") w.disk w₁.disk
          → is_dir (parent (probe_path state)) w.disk ≡ true
          → FilesKept (probe_path state) w.disk w₁.disk × (is_dir state.data_root w.disk ≡ true)
      written w₁ made root = (
        others-FilesKept (probe_path state) w.disk w₁.disk made.others,
        subst (λ p. is_dir p w.disk ≡ true) (parent-probe_path state) root,
      )

      unwritten :
          (w₁ : World)
          → Cut (probe_path state) (codes "probe") w.disk w₁.disk
          → FilesKept (probe_path state) w.disk w₁.disk
      unwritten w₁ (inl same) = λ q b ne there. rw same there
      unwritten w₁ (inr (n, cut)) = others-FilesKept (probe_path state) w.disk w₁.disk cut.others

      told :
          (r : Outcome IoError (Unit {0})) (w₁ : World)
          → AfterAt (λ _ w₁. Written w₁) (λ _ w₁. Kept w₁) r w₁
          → After
              (λ info w'. FilesKept (probe_path state) w.disk w'.disk × Sound w info)
              (λ _ _. ⊥)
              (probed state host r)
              w₁
      told (ok _) w₁ (kept, there) = After-bind (
          After-mono
            (After-attempt (
              After-call host.fails {Q = λ _ w₂. FilesKept (probe_path state) w.disk w₂.disk}
                {R = λ _ w₂. FilesKept (probe_path state) w.disk w₂.disk}
                (remove_file (probe_path state))
                (λ _ d' h. remove_file-FilesKept (probe_path state) w.disk w₁.disk d' kept h)
                (λ _. kept)))
            (λ r w₂ k. record {
              at = (
                AfterAt-both (λ w'. FilesKept (probe_path state) w.disk w'.disk) r w₂ k,
                inr there,
              );
            })
            (λ _ _ x. x))
      told (err _) w₁ kept = record { at = (kept, inl refl) }
