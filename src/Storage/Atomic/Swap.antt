-- ===== src/Storage/Atomic/Swap.antt =====
-- The swap of the metadata, and what is true once it is done.
use los_cara.Base.{
  ap, ℕ, ◌≤◌, false, ◌≡◌, refl, some, none, Option, [], ◌++◌, arith, inl, inr, Bool-cases, Text,
  take,
}
use los_cara.Error.{ok}
use los_cara.Storage.Fs
use los_cara.Storage.Fs.{
  FilePath, Node, dir, file, Fs, lookup, set, path_eq, path_eq_iff, lookup-set, lookup-remove,
  is_dir, parent, child, entries,
}
use los_cara.Storage.Io.{World, M, draw, tick}
use los_cara.Storage.Calls.{
  create_file, write_all, write, rename, do_rename, do_create, append_to, untorn,
}
use los_cara.Storage.Types.{Env, Json, ObjectMeta}
use los_cara.Storage.Names.{meta_name}
use los_cara.Storage.Json.{write_json_atomic}
use los_cara.Storage.Atomic.Hoare.{Hoare, Facts, In, syscall_rule, bind_rule, lift_rule, if_post}
use los_cara.Storage.Atomic.Steps.{
  IsOld, IsSpare, Holds, Holds-set, Staged, set-IsOld, remove-IsOld, append_to-IsOld,
  append_to-Holds,
}
use los_cara.Storage.Atomic.Laws.{json_tmp}

-- A counter moves on; what was true stays true, and the number drawn is not below the start.
pub draw_rule :
    {E : Type 0} {X K : World → Type 0} (fs₀ : Fs) (mp : FilePath) (d₀ : ℕ) (P : Fs → Type 0)
    → Hoare {E = E}
        (In (λ fs d. IsOld fs₀ mp d₀ fs d × P fs))
        draw
        (λ n w. (d₀ ≤ n) × In (λ fs d. IsOld fs₀ mp d₀ fs d × P fs) w)
        X
        K
unfolding draw
draw_rule fs₀ mp d₀ P = record {
  at = λ w h. (
    h.0.drawn,
    (record { kept = h.0.kept; meta_kept = h.0.meta_kept; drawn = omega (arith, h.0.drawn) }, h.1),
  );
}

pub tick_rule :
    {E : Type 0} {X K : World → Type 0} (P : Facts) → Hoare {E = E} (In P) tick (λ _. In P) X K
unfolding tick
tick_rule P = record { at = λ w h. h }

-- A fact that does not speak of the world.
pub given_rule :
    {E A G : Type 0} {P : World → Type 0} {Q : A → World → Type 0} {X K : World → Type 0}
    {m : M E A}
    → (G → Hoare P m Q X K)
    → Hoare (λ w. G × P w) m Q X K
given_rule k = record { at = λ w h. (k h.0).at w h.1 }

-- `meta` stands in the metadata file, its data file `name` holds `c`, and the files of `fs₀` in
-- other directories are unchanged.
pub record IsNew (json : Json ObjectMeta) (fs₀ : Fs) (p : FilePath) (meta : ObjectMeta)
    (name c : Text) (fs : Fs) : Type 0 where
  pub text : Text
  pub parsed : json.from_slice text ≡ ok meta
  pub installed : Holds (child p meta_name) text fs
  pub content : Holds (child p name) c fs
  pub others :
      (q : FilePath) (s : Text)
      → lookup q fs₀ ≡ some (file s)
      → path_eq (parent q) p ≡ false
      → Holds q s fs

module _ (fs₀ : Fs) (mp : FilePath) (d₀ : ℕ) where
  abbrev Old : Facts
  Old = IsOld fs₀ mp d₀

  pub rename_rule :
      (a b : FilePath) (c : Text)
      → IsSpare fs₀ mp a
      → IsSpare fs₀ mp b
      → Hoare
          (In (Staged fs₀ mp d₀ a c))
          (rename a b)
          (λ _. In (Staged fs₀ mp d₀ b c))
          (In Old)
          (In Old)
  unfolding rename
  rename_rule a b c sa sb =
      syscall_rule (Staged fs₀ mp d₀ a c) Old (λ _. Staged fs₀ mp d₀ b c) (do_rename a b) untorn
        (λ fs d h.
          rw (h.1, do_rename)
            (if_post (λ _. Staged fs₀ mp d₀ b c) Old fs d (is_dir b fs) _ _ h.0
              (if_post (λ _. Staged fs₀ mp d₀ b c) Old fs d (is_dir (parent b) fs) _ _
                (
                  set-IsOld fs₀ mp d₀ (file c) sb (remove-IsOld fs₀ mp d₀ sa h.0),
                  Holds-set b c (Fs.remove a fs),
                )
                h.0)))
        (λ k fs d h. h.0)

-- `dp` is the data file that was installed, `jt` the staged metadata.
module _ (json : Json ObjectMeta) (fs₀ : Fs) (p : FilePath) (d₀ : ℕ) (name c : Text)
    (meta : ObjectMeta) where
  abbrev mp : FilePath
  mp = child p meta_name

  abbrev dp : FilePath
  dp = child p name

  abbrev Before : Facts
  Before = IsOld fs₀ mp d₀

  abbrev Ready : Facts
  Ready fs d = Before fs d × Holds dp c fs

  abbrev Both : FilePath → Text → Facts
  Both jt t fs d = Before fs d × Holds dp c fs × Holds jt t fs

  abbrev New : Facts
  New fs d = IsNew json fs₀ p meta name c fs

  Holds-set_ne :
      (a b : FilePath) (s : Text) (n : Node) (fs : Fs)
      → path_eq a b ≡ false
      → Holds b s fs
      → Holds b s (set a n fs)
  Holds-set_ne a b s n fs ne h = rw (lookup-set, ne) h

  Holds-append_ne :
      (a b : FilePath) (s t : Text) (fs : Fs)
      → path_eq a b ≡ false
      → Holds b s fs
      → Holds b s (append_to a t fs)
  unfolding append_to
  Holds-append_ne a b s t fs ne h = go (lookup a fs)
    where
      go :
          (found : Option Node)
          → Holds b s (elim found [ some (file old) ↦ set a (file (old ++ t)) fs | _ ↦ fs ])
      go none = h
      go (some dir) = h
      go (some (file old)) = Holds-set_ne a b s (file (old ++ t)) fs ne h

  module _ (jt : FilePath) (spare : IsSpare fs₀ mp jt) (ne : path_eq jt dp ≡ false)
      (apart : path_eq dp mp ≡ false) where
    create_both : Hoare (In Ready) (create_file jt) (λ _. In (Both jt [])) (In Before) (In Before)
    unfolding create_file
    create_both =
        syscall_rule Ready Before (λ _. Both jt []) (do_create jt) untorn
          (λ fs d h.
            if_post (λ _. Both jt []) Before fs d (is_dir jt fs) _ _ h.0
              (if_post (λ _. Both jt []) Before fs d (is_dir (parent jt) fs) _ _
                (
                  set-IsOld fs₀ mp d₀ (file []) spare h.0,
                  Holds-set_ne jt dp c (file []) fs ne h.1,
                  Holds-set jt [] fs,
                )
                h.0))
          (λ k fs d h. h.0)

    write_both :
        (t : Text)
        → Hoare (In (Both jt [])) (write_all jt t) (λ _. In (Both jt t)) (In Before) (In Before)
    unfolding write_all
    write_both t =
        syscall_rule (Both jt []) Before (λ _. Both jt t) (λ fs. ok (tt, append_to jt t fs))
          (λ k. append_to jt (take k t))
          (λ fs d h. (
            append_to-IsOld fs₀ mp d₀ t fs spare h.0,
            Holds-append_ne jt dp c t fs ne h.1,
            append_to-Holds fs₀ mp d₀ jt [] t fs h.2,
          ))
          (λ k fs d h. append_to-IsOld fs₀ mp d₀ (take k t) fs spare h.0)

    others_kept :
        (text : Text) (fs : Fs) (d : ℕ) (q : FilePath) (s : Text)
        → Before fs d
        → lookup q fs₀ ≡ some (file s)
        → path_eq (parent q) p ≡ false
        → Holds q s (set mp (file text) (Fs.remove jt fs))
    others_kept text fs d q s o h far = elim (Bool-cases (path_eq mp q)) [
      | inl same ↦ cc (far, ap parent ((path_eq_iff mp q).0 same), (path_eq_iff p p).1 refl)
      | inr other ↦ rw (lookup-set, other) ((remove-IsOld fs₀ mp d₀ spare o).kept q s h)
    ]

    swap_rule :
        (text : Text)
        → json.from_slice text ≡ ok meta
        → Hoare (In (Both jt text)) (rename jt mp) (λ _. In New) (In Before) (In Before)
    unfolding rename
    swap_rule text parsed =
        syscall_rule (Both jt text) Before (λ _. New) (do_rename jt mp) untorn
          (λ fs d h.
            rw (h.2, do_rename)
              (if_post (λ _. New) Before fs d (is_dir mp fs) _ _ h.0
                (if_post (λ _. New) Before fs d (is_dir p fs) _ _
                  (record {
                    text = text;
                    parsed = parsed;
                    installed = Holds-set mp text (Fs.remove jt fs);
                    content = rw (lookup-set, mp-ne-dp, lookup-remove, ne) h.1;
                    others = λ q s k far. others_kept text fs d q s h.0 k far;
                  })
                  h.0)))
          (λ k fs d h. h.0)
      where
        mp-ne-dp : path_eq mp dp ≡ false
        mp-ne-dp = ground (arith, path_eq_iff mp dp, path_eq_iff dp mp)

  -- The names under which the metadata is staged are free.
  module _ (env : Env) (law : (s : Text) → json.to_vec meta ≡ ok s → json.from_slice s ≡ ok meta)
      (spare : (n : ℕ) → d₀ ≤ n → IsSpare fs₀ mp (json_tmp env mp n))
      (ne : (n : ℕ) → path_eq (json_tmp env mp n) dp ≡ false) (apart : path_eq dp mp ≡ false) where
    pub write_json_atomic_rule :
        Hoare (In Ready) (write_json_atomic json env mp meta) (λ _. In New) (In Before) (In Before)
    unfolding write_json_atomic write
    write_json_atomic_rule = bind_rule (draw_rule fs₀ mp d₀ (Holds dp c)) λ n. given_rule λ le.
        bind_rule
          (lift_rule {Q = λ text w. (json.from_slice text ≡ ok meta) × In Ready w}
            (json.to_vec meta) (λ w h. h.0) (λ text e w h. (law text e, h)))
          λ text. given_rule λ parsed.
            bind_rule
              (bind_rule (create_both (json_tmp env mp n) (spare n le) (ne n) apart)
                λ _. write_both (json_tmp env mp n) (spare n le) (ne n) apart text)
              λ _. swap_rule (json_tmp env mp n) (spare n le) (ne n) apart text parsed
