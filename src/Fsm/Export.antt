-- ===== src/Fsm/Export.antt =====
-- fsm/fsm.c, `fsm_export_to_dot`: where the lines of a graph go.
use experimentation.Base.{List, [], ap, append-nil, refl, some, ℕ, ◌++◌, ◌>>=◌, ◌∙◌, ◌∷◌, ◌≡◌}
use experimentation.Fsm.Output.{
  to_fp, edge, close, digraph, to_stdout, Line, Stream, export_events, fsm_export_to_dot,
}
use experimentation.Fsm.Reachability.{IsLinked}
use experimentation.Fsm.Types.{Fsm, deref}
use experimentation.Htable.Loops.{for_each_elm_inv}

-- what the file is given
pub to_file : List (Stream × Line) → List Line
to_file [] = []
to_file ((to_fp, l) ∷ out) = l ∷ to_file out
to_file ((to_stdout, l) ∷ out) = to_file out

to_file-append : (a b : List (Stream × Line)) → to_file (a ++ b) ≡ to_file a ++ to_file b
unfolding to_file
to_file-append [] b = refl
to_file-append ((to_fp, l) ∷ a) b = ap (λ x. l ∷ x) (to_file-append a b)
to_file-append ((to_stdout, l) ∷ a) b = to_file-append a b

module _ (f : Fsm) (good : IsLinked f) where
  export_events-to_file :
      (skey p : ℕ) (out : List (Stream × Line))
      → (out' : List (Stream × Line)) × (export_events f skey p out ≡ some out')
        × (to_file out' ≡ to_file out)
  unfolding export_events to_file
  export_events-to_file skey p out =
      let (out', run, same, done, kept) =
        for_each_elm_inv
          (λ enode o. enode.hn_data.evt_newstate >>= λ q.
            some (o ++ (to_stdout, edge skey (f.memory q).st_key enode.hn_key) ∷ []))
          (λ o. to_file o ≡ to_file out) (λ enode o. Unit {0}) (f.memory p).evttable
          (good.evt_width p) (good.evt_sized p)
          (λ enode occurs o e.
            let (q, to) = good.linked p enode occurs in
            (
              o ++ (to_stdout, edge skey (f.memory q).st_key enode.hn_key) ∷ [],
              record {
                runs = rw to refl;
                holds = to_file-append o _ ∙ (append-nil _ ∙ e);
                done = tt;
                keeps = λ n u. u;
              },
            ))
          out refl in
      (out', run, same)

  -- fsm_export_to_dot of a linked machine ends, and the file that it is given gets the first and
  -- the last line of the graph and no edge.
  pub fsm_export_to_dot-to_file :
      (out : List (Stream × Line)) × (fsm_export_to_dot f ≡ some out)
      × (to_file out ≡ digraph ∷ close ∷ [])
  unfolding fsm_export_to_dot to_file
  fsm_export_to_dot-to_file =
      let (out, run, same, done, kept) =
        for_each_elm_inv (λ snode o. export_events f (deref f.memory snode.hn_key) snode.hn_data o)
          (λ o. to_file o ≡ digraph ∷ []) (λ snode o. Unit {0}) f.sttable good.width good.sized
          (λ snode occurs o e.
            let (o', run, same) =
              export_events-to_file (deref f.memory snode.hn_key) snode.hn_data o in
            (o', record { runs = run; holds = same ∙ e; done = tt; keeps = λ n u. u }))
          ((to_fp, digraph) ∷ []) refl in
      (
        out ++ (to_fp, close) ∷ [],
        rw run refl,
        to_file-append out _ ∙ ap (λ x. x ++ close ∷ []) same,
      )
