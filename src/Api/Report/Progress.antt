-- ===== src/Api/Report/Progress.antt =====
-- What a node's reports may do to containers (internal/api/nodes.go).
use hambo.Base.{
  ℕ, ◌≤◌, String, false, List, [], ◌∷◌, ◌≡◌, ◌≢◌, refl, sym, ap, ◌∙◌, arith, ok, err, not_found,
  Result-cases, Bool-cases, inl, inr, dec_string, All, subst, ok-injective,
}
use hambo.Model.Container.{Container, State, pending, running, exited, other}
use hambo.Model.Database.{Collections, AreLawful}
use hambo.Api.Report.{
  ContainerStatusReport, is_backward, reported, apply_report, apply_reports, apply_found,
  record_report,
}

-- How far a container has come in its life.
abbrev pub rank : State → ℕ
rank pending = 0
rank running = 1
rank exited = 2
rank (other s) = 0

abbrev pub IsKnown : State → Type 0
IsKnown (other s) = ⊥
IsKnown _ = Unit {0}

abbrev pub HasState : ContainerStatusReport → Type 0
HasState r = IsKnown r.state

-- What a container of the node `node_id` can become by a report: what it is, where it runs and
-- what is wanted of it stay, and its life goes forward. A container of another node stays whole.
pub record Advances (node_id : String) (c c' : Container) : Type 0 where
  pub same_id : c'.id ≡ c.id
  pub same_name : c'.name ≡ c.name
  pub same_image : c'.image ≡ c.image
  pub same_node : c'.node_id ≡ c.node_id
  pub same_creation : c'.created_at ≡ c.created_at
  pub same_deletion : c'.deletion_requested_at ≡ c.deletion_requested_at
  pub forward : rank c.state ≤ rank c'.state
  pub foreign : c.node_id ≢ node_id → c' ≡ c

Advances-refl : (node_id : String) (c : Container) → Advances node_id c c
Advances-refl node_id c = ground arith

Advances-trans :
    (node_id : String) (a b c : Container)
    → Advances node_id a b
    → Advances node_id b c
    → Advances node_id a c
Advances-trans node_id a b c p q = record {
  same_id = q.same_id ∙ p.same_id;
  same_name = q.same_name ∙ p.same_name;
  same_image = q.same_image ∙ p.same_image;
  same_node = q.same_node ∙ p.same_node;
  same_creation = q.same_creation ∙ p.same_creation;
  same_deletion = q.same_deletion ∙ p.same_deletion;
  forward = omega (arith, p.forward, q.forward);
  foreign = λ ne. q.foreign (λ e. ne (sym p.same_node ∙ e)) ∙ p.foreign ne;
}

not-backward_forward : (s t : State) → IsKnown t → is_backward s t ≡ false → rank s ≤ rank t
unfolding is_backward
not-backward_forward s t ht h = ground arith

module _ {N C T : Type 0} (c : Collections N C T) where
  -- What a transaction of the node `node_id` may do to the collection of containers.
  pub record Progress (node_id : String) (before after : C) : Type 0 where
    pub unknown :
        (j : String)
        → c.containers.get_tx j before ≡ err not_found
        → c.containers.get_tx j after ≡ err not_found
    pub moves :
        (j : String) (a : Container)
        → c.containers.get_tx j before ≡ ok a
        → (a' : Container) × (c.containers.get_tx j after ≡ ok a') × Advances node_id a a'

  Progress-refl : (node_id : String) (s : C) → Progress node_id s s
  Progress-refl node_id s = record {
    unknown = λ j h. h;
    moves = λ j a h. (a, h, Advances-refl node_id a);
  }

  Progress-trans :
      (node_id : String) (s t u : C)
      → Progress node_id s t
      → Progress node_id t u
      → Progress node_id s u
  Progress-trans node_id s t u p q = record {
    unknown = λ j h. q.unknown j (p.unknown j h);
    moves = λ j a h.
        let (b, hb, ab) = p.moves j a h in
        let (d, hd, bd) = q.moves j b hb in (d, hd, Advances-trans node_id a b d ab bd);
  }

  module _ (lawful : AreLawful c) (node_id : String) where
    update-Progress :
        (r : ContainerStatusReport) (current : Container) (s s' : C)
        → HasState r
        → c.containers.get_tx r.id s ≡ ok current
        → current.node_id ≡ node_id
        → is_backward current.state r.state ≡ false
        → c.containers.update_tx r.id (reported current r) s ≡ ok s'
        → Progress node_id s s'
    update-Progress r current s s' known found own onward h = record {
      unknown =
          λ j g. ground (arith, lawful.containers.update-get r.id j (reported current r) s s' h);
      moves = λ j a g. elim (dec_string j r.id) [
        | no other_id ↦ (
          a,
          ground (arith, lawful.containers.update-get r.id j (reported current r) s s' h),
          Advances-refl node_id a,
        )
        | yes same ↦ (
          reported current r,
          ground (arith, lawful.containers.update-get r.id j (reported current r) s s' h),
          subst (λ x. Advances node_id x (reported current r))
              (ok-injective current a
                (sym found ∙ ap (λ k. c.containers.get_tx k s) (sym same) ∙ g))
              (record {
                same_id = refl;
                same_name = refl;
                same_image = refl;
                same_node = refl;
                same_creation = refl;
                same_deletion = refl;
                forward = not-backward_forward current.state r.state known onward;
                foreign = λ ne. absurd (ne own);
              }),
        )
      ];
    }

    record_report-Progress :
        (r : ContainerStatusReport) (current : Container) (s s' : C)
        → HasState r
        → c.containers.get_tx r.id s ≡ ok current
        → record_report c node_id r current s ≡ ok s'
        → Progress node_id s s'
    unfolding record_report
    record_report-Progress r current s s' known found h =
        elim (dec_string current.node_id node_id) [
          | no foreign ↦ absurd (ground arith)
          | yes own ↦ elim (Bool-cases (is_backward current.state r.state)) [
            | inl back ↦ subst (Progress node_id s) (ground arith) (Progress-refl node_id s)
            | inr onward ↦ update-Progress r current s s' known found own onward (ground arith)
          ]
        ]

    apply_report-Progress :
        (r : ContainerStatusReport) (s s' : C)
        → HasState r
        → apply_report c node_id r s ≡ ok s'
        → Progress node_id s s'
    unfolding apply_report apply_found
    apply_report-Progress r s s' known h = elim (Result-cases (c.containers.get_tx r.id s)) [
      | inr (e, p) ↦ subst (Progress node_id s) (ground arith) (Progress-refl node_id s)
      | inl (current, p) ↦ record_report-Progress r current s s' known p (ground arith)
    ]

    -- If the reports of one request have supported states and are applied without an error, then no
    -- container comes into being, each stored one keeps its ID, name, image, node, creation and
    -- deletion times, its state never goes back in the order pending, running, exited, and a
    -- container of another node stays as it was.
    pub apply_reports-Progress :
        (rs : List ContainerStatusReport) (s s' : C)
        → All HasState rs
        → apply_reports c node_id rs s ≡ ok s'
        → Progress node_id s s'
    unfolding apply_reports
    apply_reports-Progress [] s s' known h =
        subst (Progress node_id s) (ok-injective s s' h) (Progress-refl node_id s)
    apply_reports-Progress (r ∷ rs) s s' known h =
        elim (Result-cases (apply_report c node_id r s)) [
          | inr (e, p) ↦ absurd (ground arith)
          | inl (t, p) ↦
              Progress-trans node_id s t s' (apply_report-Progress r s t known.0 p)
                (apply_reports-Progress rs t s' known.1 (ground arith))
        ]
