-- ===== src/Example/Around.antt =====
-- What the example sets up before its calls, and what it takes down behind them.
use smolkafka.Prelude.{ℕ, ◌≡◌, refl, ap, ◌∙◌, Bool, false, List, [], arith}
use smolkafka.Exec.Returns.{Returns, Returns-bind}
use smolkafka.Bytes.{Bytes}
use smolkafka.Disk.{Name, Dir}
use smolkafka.Platform.{Platform, Record}
use smolkafka.Segment.{Config}
use smolkafka.Log
use smolkafka.Log.{Log, with_defaults}
use smolkafka.Log.Reset.{remove_lem}
use smolkafka.Log.Setup.{empty_dir, new_log_lem}
use smolkafka.Config.{Crypto}
use smolkafka.Config.Files.{ConfigFiles}
use smolkafka.Service.{Machine}
use smolkafka.Server.Calls.{Context, Around, new_grpc_server}
use smolkafka.Example.{Packages, Demo, dir_pattern, zero_config, open_log, set_up, clean_up}
use smolkafka.Example.Works.{Spares, Works}
use smolkafka.Example.Holding.{Holding, Holding-of, Holding-same}

module _ {S H O C P : Type 0} {pkg : Packages S H O C P} {os : Platform} {machine : Machine S}
    {crypto : Crypto C P} {enforce : Name → Name → Name → Bool} {files : ConfigFiles}
    {around : Around S ℕ} {reading : Around S Record} {ctx : Context} {subject : Name}
    (w : Works pkg os machine crypto enforce files around reading ctx subject) where
  new_grpc_server-Spares :
      (options : List O)
      → Spares machine
          (new_grpc_server (pkg.grpc_of files.acl_model_file files.acl_policy_file) options)
  unfolding new_grpc_server
  new_grpc_server-Spares options s =
      let g = pkg.grpc_of files.acl_model_file files.acl_policy_file in
      let Same = (λ (_ : H) (t : S). machine.get t ≡ machine.get s) in
      let Still = (λ (_ : Unit {0}) (t : S). machine.get t ≡ machine.get s) in
      Returns-bind g.register_views _ s Still Same (w.grpc_lem.register_views_lem s) (λ _ t st.
        Returns-bind (g.new_server _) _ t (λ _ u. machine.get u ≡ machine.get t) Same
          (w.grpc_lem.new_server_lem _ t)
          (λ server u tu.
            Returns-bind (g.register_health server) _ u (λ _ v. machine.get v ≡ machine.get u) Same
              (w.grpc_lem.register_health_lem server u)
              (λ _ v uv.
                Returns-bind (g.register_log server) _ v (λ _ x. machine.get x ≡ machine.get v) Same
                  (w.grpc_lem.register_log_lem server v)
                  (λ _ x vx. (server, refl, vx ∙ uv ∙ tu ∙ st)))))

  open_log-Holding :
      (dir : Name) (s : S)
      → pkg.dir_of dir s ≡ empty_dir
      → Returns (open_log pkg os machine crypto dir s) (λ _ t. Holding machine [] t)
  unfolding open_log with_defaults
  open_log-Holding dir s e =
      let (u, opened, (holds, config)) = new_log_lem os zero_config (omega arith) (omega arith) in
      let l = (Log.new_log os empty_dir zero_config).1 in
      let same = ap (λ d. (Log.new_log os d zero_config).1) e in
      (
        u,
        ap (λ d. (Log.new_log os d zero_config).0) e ∙ opened,
        Holding-of machine [] _ l (w.get_put s _ ∙ same) holds tt
            (ap (λ (c : Config). c.max_store_bytes) config)
            (ap (λ (c : Config). c.max_index_bytes) config),
      )

  pub set_up-Holding :
      (s : S) → Returns (set_up pkg os machine crypto files s) (λ _ t. Holding machine [] t)
  unfolding set_up
  set_up-Holding s =
      let Empty = (λ (_ : Demo H) (t : S). Holding machine [] t) in
      Returns-bind (pkg.listen _) _ s (λ _ _. Unit {0}) Empty (w.listens s)
        (λ listener t _.
          let (server_side, tls) = w.has_server_tls (pkg.addr_of listener) in
          let (client_side, peer_tls) = w.has_client_tls in
          rw (tls, peer_tls)
            (Returns-bind (pkg.mkdir_temp dir_pattern) _ t (λ dir u. pkg.dir_of dir u ≡ empty_dir)
              Empty (w.makes_dir t)
              (λ dir u new.
                Returns-bind (open_log pkg os machine crypto dir) _ u (λ _ v. Holding machine [] v)
                  Empty (open_log-Holding dir u new)
                  (λ _ v held.
                    Returns-bind (new_grpc_server _ _) _ v (λ _ x. machine.get x ≡ machine.get v)
                      Empty (new_grpc_server-Spares _ v)
                      (λ server x vx.
                        let y = pkg.serve server listener x in
                        Returns-bind (pkg.new_client (pkg.addr_of listener) client_side) _ y
                          (λ _ z. machine.get z ≡ machine.get y) Empty
                          (w.connects (pkg.addr_of listener) client_side y)
                          (λ conn z yz. (
                            _,
                            refl,
                            Holding-same machine [] v z (yz ∙ w.serve_lem server listener x ∙ vx)
                                held,
                          )))))))

  pub clean_up-removed :
      (demo : Demo H) (s : S)
      → ((gs : List Bytes) × Holding machine gs s)
      → (machine.get (clean_up pkg os machine crypto demo s)).dir.exists ≡ false
  unfolding clean_up
  clean_up-removed demo s (gs, held) =
      let stopped = pkg.stop demo.server (pkg.close_conn demo.conn s) in
      let same = w.stop_lem demo.server (pkg.close_conn demo.conn s) ∙ w.clean_lem demo.conn s in
      let (_, _, gone) = remove_lem os (machine.get s) 0 gs held.holds in
      let put = machine.put stopped (Log.remove os (machine.get stopped)).1 in
      ap (λ (l : Log). l.dir.exists)
        (w.close_listener_lem demo.listener (pkg.remove_all demo.dir put)
          ∙ w.remove_all_lem demo.dir put
          ∙ w.get_put stopped (Log.remove os (machine.get stopped)).1
          ∙ ap (λ l. (Log.remove os l).1) same)
      ∙ ap (λ (d : Dir). d.exists) gone
