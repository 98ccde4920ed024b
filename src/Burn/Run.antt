-- ===== src/Burn/Run.antt =====
-- `runDisc` of internal/burn/pipeline.go.
use varis.Base.{◌++◌, if◌then◌else◌, Text, codes}
use varis.Base.Effect.{Effect, with_context}
use varis.Db.{WriteKind, optical, filesystem, other_kind}
use varis.Os.{Os}
use varis.Burn.Cataloger.{Cataloger}
use varis.Burn.Plan.{Options, DiscPlan}
use varis.Burn.Tools.{create_parity, burn_iso, copy_file}
use varis.Burn.Job.{
  Job, Manager, state_packing, state_parity, state_iso, state_burning, state_verifying,
}
use varis.Burn.Step.{set_state, within, ◌>>=◌, ◌>>◌}
use varis.Burn.Disc.{
  Dirs, tar_path, iso_path, clear_artifacts, check_free_space, pack_payload, write_toc, stage_iso,
  verify_target, dry_run, checksum_line, commit_disc, after_commit,
}

module _ (cat : Cataloger) (os : Os cat.State) (dirs : Dirs) where
  abbrev write_filesystem : Options → DiscPlan → Text → Effect (Manager cat.State) (Unit {0})
  write_filesystem opts plan iso_hash = do
    within (with_context (codes "copy") (copy_file os opts.target_path (iso_path cat os dirs plan)))
    set_state state_verifying
    within (verify_target cat os dirs opts plan iso_hash)
    within (
        with_context (codes "writing checksum file") (
          os.write_file (opts.target_path ++ codes ".sha256")
            (checksum_line cat os dirs iso_hash opts.target_path)))

  abbrev write_optical : Options → DiscPlan → Text → Effect (Manager cat.State) (Unit {0})
  write_optical opts plan iso_hash = do
    within (with_context (codes "burn") (burn_iso os opts.target_path (iso_path cat os dirs plan)))
    set_state state_verifying
    within (verify_target cat os dirs opts plan iso_hash)

  abbrev pub write_as :
      WriteKind → Options → DiscPlan → Text → Effect (Manager cat.State) (Unit {0})
  write_as optical opts plan iso_hash = write_optical opts plan iso_hash
  write_as filesystem opts plan iso_hash = write_filesystem opts plan iso_hash
  write_as (other_kind _) opts plan iso_hash = write_optical opts plan iso_hash

  -- The `switch` on how the image is written.
  unfoldable pub write_medium : Options → DiscPlan → Text → Effect (Manager cat.State) (Unit {0})
  write_medium opts plan iso_hash =
      if opts.dry_run
      then within (dry_run cat os dirs plan)
      else write_as opts.write_kind opts plan iso_hash

  unfoldable pub run_disc : Job → DiscPlan → Effect (Manager cat.State) (Unit {0})
  run_disc job plan = do
    within (clear_artifacts cat os dirs plan)
    within (check_free_space cat os dirs job.options)
    set_state state_packing
    within (pack_payload cat os dirs job plan plan.role)
    set_state state_parity
    within (
        with_context (codes "parity")
          (create_parity os (tar_path cat os dirs plan) job.options.parity_percent))
    within (write_toc cat os dirs job.options plan)
    set_state state_iso
    iso_hash ← within (stage_iso cat os dirs plan)
    set_state state_burning
    write_medium job.options plan iso_hash
    within (with_context (codes "db commit") (commit_disc cat os dirs job.options plan iso_hash))
    within (after_commit cat os dirs job plan plan.role)
