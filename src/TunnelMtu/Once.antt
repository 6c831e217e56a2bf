-- ===== src/TunnelMtu/Once.antt =====
-- The MTU of a tunnel is found once, and looked for again after an error: init of client.go and
-- server.go.
use sdk_vpp.Prelude.{ℕ, ◌≡◌, refl, ap, Bool, true, false, arith}
use sdk_vpp.Types.{Ip, UnionApi}
use sdk_vpp.Vpp.{Vpp, Error, sw_interface_dump}
use sdk_vpp.Exec.{State, Outcome, ok, err, panic}
use sdk_vpp.TunnelMtu.{MtuState, get_mtu, init, init_from}
use sdk_vpp.TunnelMtu.Discovery.{FromInterface, get_mtu-FromInterface}

module _ (api : UnionApi) (overhead : Bool → ℕ) (v : Vpp) (tunnel_ip : Ip) where
  -- When init looked for the MTU and returned no error, the MTU comes from an interface as getMTU's
  -- does, and init in any later state of the element with that MTU sends nothing and changes nothing.
  init_once :
      (s t u : State MtuState)
      → s.own.inited ≡ false
      → init api overhead v tunnel_ip s ≡ (ok tt, t)
      → u.own ≡ t.own
      → FromInterface api overhead v tunnel_ip (v.interfaces s.calls sw_interface_dump) t.own.mtu
        × (init api overhead v tunnel_ip u ≡ (ok tt, u))
  unfolding init init_from
  init_once s t u first e same = pick (get_mtu api overhead v tunnel_ip s) refl
    where
      pick :
          (q : Outcome Error ℕ × State MtuState)
          → get_mtu api overhead v tunnel_ip s ≡ q
          → FromInterface api overhead v tunnel_ip
              (v.interfaces s.calls sw_interface_dump)
              t.own.mtu
            × (init api overhead v tunnel_ip u ≡ (ok tt, u))
      pick (ok m, w) h =
          let e' : t ≡ record w { own = record { mtu = m; inited = true } } = ground arith in
          let own' : t.own ≡ record { mtu = m; inited = true } =
            ap (λ (x : State MtuState). x.own) e' in
          (
            simp own' (get_mtu-FromInterface api overhead v tunnel_ip m s w h),
            simp same (simp own' refl),
          )
      pick (err x, w) h = ground arith
      pick (panic, w) h = ground arith

  -- When init looked for the MTU and failed, it is still to be looked for: the next init asks VPP.
  init_retry :
      (x : Error) (s t : State MtuState)
      → s.own.inited ≡ false
      → init api overhead v tunnel_ip s ≡ (err x, t)
      → (t.own ≡ record { mtu = 0; inited = false })
        × (init api overhead v tunnel_ip t ≡ init_from api overhead v tunnel_ip false t)
  unfolding init init_from
  init_retry x s t first e =
      let own' : t.own ≡ record { mtu = 0; inited = false } =
        pick (get_mtu api overhead v tunnel_ip s) refl in
      (own', simp own' refl)
    where
      pick :
          (q : Outcome Error ℕ × State MtuState)
          → get_mtu api overhead v tunnel_ip s ≡ q
          → t.own ≡ record { mtu = 0; inited = false }
      pick (ok m, w) h = ground arith
      pick (err y, w) h = ground arith
      pick (panic, w) h = ground arith
