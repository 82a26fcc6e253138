-- ===== src/Device/Notify.antt =====
-- What the owner of a device is told of a transfer.
use stm32_os.Common.{
  ℕ, ◌≡◌, ◌≢◌, refl, sym, ap₂, ◌∙◌, List, [], ◌∷◌, ◌++◌, arith, ◌==◌, ==-true, ==-false, Bool-cases,
  inl, inr, if◌then◌else◌, nonzero, true, ◌&&◌, ◌||◌, ◌⊎◌,
}
use stm32_os.Device.{
  ExeState, Request, Devices, is_success, driver_open, driver_close, driver_func_set,
  driver_func_clear, driver_read, driver_write, driver_read_asyn, driver_write_asyn, transfer,
  notify,
}

-- The calls that follow a transfer: of `complete` if it succeeded and there is one, else of `error`
-- if there is one.
abbrev pub calls : ExeState → (complete error : ℕ) → List ℕ
calls ExeState.exe_success complete error =
    if nonzero complete then complete ∷ [] else if nonzero error then error ∷ [] else []
calls _ complete error = if nonzero error then error ∷ [] else []

zero_of : (n : ℕ) → (n == 0) ≡ true → n ≡ 0
zero_of n e = ground arith

module _ (Hardware : Type 0)
    (peripheral_driver : ℕ → ℕ → ℕ → Request → Hardware → ExeState × Hardware) where
  abbrev pub read_or_write : Request → Request
  read_or_write Request.write = Request.write
  read_or_write _ = Request.read

  -- A device is opened, its notifications are set, and a transfer is made.
  abbrev pub session :
      (device peripheral mode complete error buff size : ℕ)
      → Request
      → Devices Hardware
      → ExeState × Devices Hardware
  session device peripheral mode complete error buff size Request.write s =
      let s1 = (driver_open Hardware peripheral_driver device peripheral mode s).1 in
      let s2 = (driver_func_set Hardware peripheral_driver device complete error s1).1 in
      driver_write Hardware peripheral_driver device buff size s2
  session device peripheral mode complete error buff size _ s =
      let s1 = (driver_open Hardware peripheral_driver device peripheral mode s).1 in
      let s2 = (driver_func_set Hardware peripheral_driver device complete error s1).1 in
      driver_read Hardware peripheral_driver device buff size s2

  -- What it leaves.
  pub record Told (device peripheral complete error buff size : ℕ) (request : Request)
      (s : Devices Hardware) (t : ExeState × Devices Hardware) : Type 0 where
    pub driven : (t.0, t.1.hardware) ≡ peripheral_driver peripheral buff size request s.hardware
    pub told : t.1.notified ≡ calls t.0 complete error ++ s.notified

  -- The device is open on the peripheral, with these notifications; nothing else happened since
  -- `s`.
  record Opened (device peripheral complete error : ℕ) (s s2 : Devices Hardware) : Type 0 where
    ptr : s2.peripheral_ptr device ≡ peripheral
    complete_at : s2.complete_notify device ≡ complete
    error_at : s2.error_notify device ≡ error
    hardware : s2.hardware ≡ s.hardware
    notified : s2.notified ≡ s.notified

  set-Opened :
      (device peripheral complete error : ℕ) (s s1 : Devices Hardware)
      → device ≢ 0
      → peripheral ≢ 0
      → Opened device peripheral 0 0 s s1
      → Opened device peripheral complete error s
          (driver_func_set Hardware peripheral_driver device complete error s1).1
  unfolding driver_func_set
  set-Opened device peripheral complete error s s1 nd np o =
      let open_ptr : s1.peripheral_ptr device ≢ 0 = λ e. np (sym o.ptr ∙ e) in
      let at = ==-true device device refl in
      rw (==-false device 0 nd, ==-false (s1.peripheral_ptr device) 0 open_ptr)
        (record {
          ptr = o.ptr;
          complete_at = elim (Bool-cases (complete == 0)) [
            | inl e ↦ rw e (o.complete_at ∙ sym (zero_of complete e))
            | inr e ↦ rw (e, at) refl
          ];
          error_at = elim (Bool-cases (error == 0)) [
            | inl e ↦ rw e (o.error_at ∙ sym (zero_of error e))
            | inr e ↦ rw (e, at) refl
          ];
          hardware = o.hardware;
          notified = o.notified;
        })

  open-Opened :
      (device peripheral mode : ℕ) (s : Devices Hardware)
      → device ≢ 0
      → peripheral ≢ 0
      → Opened device peripheral 0 0 s
          (driver_open Hardware peripheral_driver device peripheral mode s).1
  unfolding driver_open
  open-Opened device peripheral mode s nd np =
      let at = ==-true device device refl in
      rw (==-false device 0 nd, ==-false peripheral 0 np)
        (record {
          ptr = rw at refl;
          complete_at = rw at refl;
          error_at = rw at refl;
          hardware = refl;
          notified = refl;
        })

  -- The end of a transfer, in which the driver returned `state`.
  abbrev finish :
      (state : ExeState) (complete error : ℕ) → Devices Hardware → ExeState × Devices Hardware
  finish state complete error d =
      if is_success state && nonzero complete
      then (state, notify Hardware peripheral_driver complete d)
      else (state, notify Hardware peripheral_driver error d)

  notify-calls :
      (func : ℕ) (d : Devices Hardware)
      → (let d' = notify Hardware peripheral_driver func d in
          (d'.hardware ≡ d.hardware)
          × (d'.notified ≡ (if nonzero func then func ∷ [] else []) ++ d.notified))
  notify-calls func d = elim (Bool-cases (func == 0)) [
    | inl e ↦ rw e (refl, refl)
    | inr e ↦ rw e (refl, refl)
  ]

  finish-calls :
      (state : ExeState) (complete error : ℕ) (d : Devices Hardware)
      → (let t = finish state complete error d in
          (t.0 ≡ state)
          × (t.1.hardware ≡ d.hardware)
          × (t.1.notified ≡ calls state complete error ++ d.notified))
  finish-calls ExeState.exe_success complete error d = elim (Bool-cases (complete == 0)) [
    | inl e ↦ rw e (refl, (notify-calls error d).0, (notify-calls error d).1)
    | inr e ↦ rw e (refl, refl, refl)
  ]
  finish-calls ExeState.exe_para_error complete error d =
      (refl, (notify-calls error d).0, (notify-calls error d).1)
  finish-calls ExeState.exe_dev_busying complete error d =
      (refl, (notify-calls error d).0, (notify-calls error d).1)
  finish-calls ExeState.exe_dev_error complete error d =
      (refl, (notify-calls error d).0, (notify-calls error d).1)
  finish-calls ExeState.exe_unknown_error complete error d =
      (refl, (notify-calls error d).0, (notify-calls error d).1)

  transfer-Told :
      (device peripheral complete error buff size : ℕ) (request : Request) (s s2 : Devices Hardware)
      → device ≢ 0
      → peripheral ≢ 0
      → Opened device peripheral complete error s s2
      → Told device peripheral complete error buff size request s
          (transfer Hardware peripheral_driver request device buff size s2)
  transfer-Told device peripheral complete error buff size request s s2 nd np o =
      let open_ptr : s2.peripheral_ptr device ≢ 0 = λ e. np (sym o.ptr ∙ e) in
      let r = peripheral_driver peripheral buff size request s.hardware in
      let d : Devices Hardware = record s2 { hardware = r.1 } in
      let (state, hardware, notified) = finish-calls r.0 complete error d in
      rw
        (
          ==-false device 0 nd,
          ==-false (s2.peripheral_ptr device) 0 open_ptr,
          o.ptr,
          o.hardware,
          o.complete_at,
          o.error_at,
        )
        (record {
          driven = λ i. (state i, hardware i);
          told = notified ∙ ap₂ (λ st l. calls st complete error ++ l) (sym state) o.notified;
        })

  -- With a device and a peripheral that are not NULL: after driver_open and driver_func_set, the
  -- result and the hardware that a driver_read or a driver_write leaves are those of one call of
  -- the driver of the peripheral; and at most one notification is called: the one for a complete
  -- transfer only where the driver reports success, and the one for an error where it does not, but
  -- also where it does and no other one was set.
  pub session-Told :
      (device peripheral mode complete error buff size : ℕ) (request : Request)
      (s : Devices Hardware)
      → device ≢ 0
      → peripheral ≢ 0
      → Told device peripheral complete error buff size
          (read_or_write request)
          s
          (session device peripheral mode complete error buff size request s)
  unfolding driver_read driver_write
  session-Told device peripheral mode complete error buff size request s nd np =
      let s1 = (driver_open Hardware peripheral_driver device peripheral mode s).1 in
      let s2 = (driver_func_set Hardware peripheral_driver device complete error s1).1 in
      let o =
        set-Opened device peripheral complete error s s1 nd np
          (open-Opened device peripheral mode s nd np) in
      elim request
        as (λ q.
          Told device peripheral complete error buff size (read_or_write q) s
            (session device peripheral mode complete error buff size q s)) [
              | Request.write ↦
                  transfer-Told device peripheral complete error buff size Request.write s s2 nd np
                    o
              | _ ↦
                  transfer-Told device peripheral complete error buff size Request.read s s2 nd np o
            ]

  -- An operation does nothing but report a wrong argument.
  abbrev pub Refused : Devices Hardware → ExeState × Devices Hardware → Type 0
  Refused s t = t ≡ (ExeState.exe_para_error, s)

  -- With a device that is NULL, or that has no peripheral, none of the operations but driver_open
  -- changes anything or calls anything: they all return EXE_PARA_ERROR.
  pub driver_close-Refused :
      (device a b : ℕ) (s : Devices Hardware)
      → (device ≡ 0) ⊎ (s.peripheral_ptr device ≡ 0)
      → Refused s (driver_close Hardware peripheral_driver device s)
        × Refused s (driver_func_set Hardware peripheral_driver device a b s)
        × Refused s (driver_func_clear Hardware peripheral_driver device a b s)
        × Refused s (driver_read Hardware peripheral_driver device a b s)
        × Refused s (driver_write Hardware peripheral_driver device a b s)
        × Refused s (driver_read_asyn Hardware peripheral_driver device a b s)
        × Refused s (driver_write_asyn Hardware peripheral_driver device a b s)
  unfolding driver_close driver_func_set driver_func_clear driver_read driver_write driver_read_asyn
      driver_write_asyn
  driver_close-Refused device a b s none =
      let closed : ((device == 0) || (s.peripheral_ptr device == 0)) ≡ true = ground arith in
      (
        rw closed refl,
        rw closed refl,
        rw closed refl,
        rw closed refl,
        rw closed refl,
        rw closed refl,
        rw closed refl,
      )
