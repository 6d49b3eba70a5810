-- ===== src/Build/Cleanup.antt =====
-- internal/build/docker.go: what `BuildFromZip` leaves behind, and what it returns.
use nimbus_run_a_self_hosted.Prelude.{
  String, ◌≡◌, ◌∙◌, ap, refl, inl, inr, false, none, some, Bool-cases,
}
use nimbus_run_a_self_hosted.Prelude.Exec.{Exec, Error, errorf, wrapped, ok, err, Result-cases}
use nimbus_run_a_self_hosted.Build.{
  Machine, Builder, BuildResult, contains, extract_zip, generate_dockerfile, create_build_context,
  push_image, judge, build_in, image_tag_of, build_from_zip, failed, options,
}

-- `os.RemoveAll` removes the directory if it reports no error.
pub record IsMachine (h : Machine) : Type 0 where
  pub removed :
      (dir : String) (s : h.State)
      → (h.remove_all dir s).0 ≡ ok tt
      → h.exists (h.remove_all dir s).1 dir ≡ false

module _ (h : Machine) where
  -- A build either failed and names no image, or its logs have no "error" and it names the tag.
  pub data Verdict (image_tag : String) : BuildResult → Type 0 where
    failure :
        (logs : String) (cause : Error)
        → Verdict image_tag (record { image_uri = ""; logs = logs; error = some cause })
    success :
        (logs : String)
        → contains logs "error" ≡ false
        → Verdict image_tag (record { image_uri = image_tag; logs = logs; error = none })

  -- An action that always returns a result, with its verdict.
  abbrev Judged : String → Exec h.State BuildResult → Type 0
  Judged image_tag m =
      (s : h.State) → (result : BuildResult) × ((m s).0 ≡ ok result) × Verdict image_tag result

  judge_lem : (image_tag logs : String) → Judged image_tag (judge h image_tag logs)
  unfolding judge
  judge_lem image_tag logs s = elim (Bool-cases (contains logs "error")) [
    | inl bad ↦ (failed logs (errorf "build failed"), rw bad refl, Verdict.failure logs _)
    | inr good ↦ elim (Result-cases (push_image h image_tag s).0) [
      | inl (_, e) ↦ (
        record { image_uri = image_tag; logs = logs; error = none },
        rw (good, e) refl,
        Verdict.success logs good,
      )
      | inr (cause, e) ↦
          (failed logs (wrapped "pushing image" cause), rw (good, e) refl, Verdict.failure logs _)
    ]
  ]

  build_in_lem :
      (image_tag zip_path entrypoint tmp_dir : String)
      → Judged image_tag (build_in h image_tag zip_path entrypoint tmp_dir)
  unfolding build_in extract_zip
  build_in_lem image_tag zip_path entrypoint tmp_dir s =
      let write = h.write_file (h.join tmp_dir "Dockerfile") (generate_dockerfile entrypoint) 420 in
      elim (Result-cases (write s).0) [
        | inr (cause, w) ↦
            (failed "" (wrapped "writing dockerfile" cause), rw w refl, Verdict.failure "" _)
        | inl (_, w) ↦
            let s1 = (write s).1 in
            elim (Result-cases (create_build_context h tmp_dir s1).0) [
              | inr (cause, c) ↦ (
                failed "" (wrapped "creating build context" cause),
                rw (w, c) refl,
                Verdict.failure "" _,
              )
              | inl (ctx, c) ↦
                  let s2 = (create_build_context h tmp_dir s1).1 in
                  let build = h.image_build ctx (options image_tag) in
                  elim (Result-cases (build s2).0) [
                    | inr (cause, b) ↦ (
                      failed "" (wrapped "building image" cause),
                      rw (w, c, b) refl,
                      Verdict.failure "" _,
                    )
                    | inl (body, b) ↦
                        let s3 = (build s2).1 in
                        elim (Result-cases (h.read_all body s3).0) [
                          | inr (cause, l) ↦ (
                            failed "" (wrapped "reading build logs" cause),
                            rw (w, c, b, l) refl,
                            Verdict.failure "" _,
                          )
                          | inl (logs, l) ↦
                              let (result, done, verdict) =
                                judge_lem image_tag logs (h.read_all body s3).1 in
                              (result, rw (w, c, b, l) done, verdict)
                        ]
                  ]
            ]
      ]

  -- The temporary directory that a run made, if it made one: on each way out of the run, the last
  -- thing that is done is to remove it, and where that reports no error, it is gone.
  pub data Cleaned (b : Builder) (s end : h.State) : Type 0 where
    not_made :
        (cause : Error)
        → (h.mkdir_temp b.work_dir "nimbus-build-*" s).0 ≡ err cause
        → end ≡ (h.mkdir_temp b.work_dir "nimbus-build-*" s).1
        → Cleaned b s end
    cleared :
        (tmp_dir : String) (built : h.State)
        → (h.mkdir_temp b.work_dir "nimbus-build-*" s).0 ≡ ok tmp_dir
        → end ≡ (h.remove_all tmp_dir built).1
        → ((h.remove_all tmp_dir built).0 ≡ ok tt → h.exists end tmp_dir ≡ false)
        → Cleaned b s end

  -- `BuildFromZip` always returns a result. It either holds an error and no image, or it names the
  -- tag of the image, and then the logs of the build do not contain "error". If it could not make its
  -- temporary directory, it has done nothing more; otherwise, whatever else has failed, the last thing
  -- it does is to remove that directory, which is gone if the removal reports no error.
  pub build_from_zip_lem :
      (laws : IsMachine h) (b : Builder) (stamp function_name zip_path entrypoint : String)
      (s : h.State)
      → (result : BuildResult) × ((build_from_zip h b stamp function_name zip_path entrypoint s).0
          ≡ ok result)
        × Verdict (image_tag_of h b function_name stamp) result
        × Cleaned b s (build_from_zip h b stamp function_name zip_path entrypoint s).1
  unfolding build_from_zip
  build_from_zip_lem laws b stamp function_name zip_path entrypoint s =
      let s1 = (h.mkdir_temp b.work_dir "nimbus-build-*" s).1 in
      let tag = image_tag_of h b function_name stamp in
      elim (Result-cases (h.mkdir_temp b.work_dir "nimbus-build-*" s).0) [
        | inr (cause, unmade) ↦ (
          failed "" (wrapped "creating temp dir" cause),
          rw unmade refl,
          Verdict.failure "" _,
          Cleaned.not_made cause unmade (rw unmade refl),
        )
        | inl (tmp_dir, made) ↦
            let (result, done, verdict) = build_in_lem tag zip_path entrypoint tmp_dir s1 in
            let built = (build_in h tag zip_path entrypoint tmp_dir s1).1 in
            let last : (build_from_zip h b stamp function_name zip_path entrypoint s).1
                ≡ (h.remove_all tmp_dir built).1 =
              rw made refl in
            (
              result,
              rw made done,
              verdict,
              Cleaned.cleared tmp_dir built made last
                  (λ done. ap (λ t. h.exists t tmp_dir) last ∙ laws.removed tmp_dir built done),
            )
      ]
