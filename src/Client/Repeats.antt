-- ===== src/Client/Repeats.antt =====
-- src/client/ftp_client.cpp: commandLoop at the end of the keyboard's input.
use nexus_ftp_engine.Prelude.{
  ℕ, zero, suc, ◌≡◌, ◌≢◌, refl, sym, ap, subst, ◌∙◌, Option, none, some, List, [], ◌∷◌, map, arith,
}
use nexus_ftp_engine.Bytes.{Bytes, to_lower}
use nexus_ftp_engine.Platform.{Host, SocketHandle}
use nexus_ftp_engine.Session.{Flow, next, leave, raised, out_of_fuel}
use nexus_ftp_engine.Client.Keyboard.{
  Keyboard, next_word, Choice, choice_of, transferred, asked, perform, with_input, carry_on,
  keyboard_turn, command_loop,
}

to_lower_twice : (c : ℕ) → to_lower (to_lower c) ≡ to_lower c
unfolding to_lower
to_lower_twice c = ground arith

map-to_lower : (s : Bytes) → map to_lower (map to_lower s) ≡ map to_lower s
map-to_lower [] = refl
map-to_lower (c ∷ s) =
    ap (λ d. d ∷ map to_lower (map to_lower s)) (to_lower_twice c)
    ∙ ap (λ t. to_lower c ∷ t) (map-to_lower s)

module _ (h : Host) (fuel : ℕ) where
  open h use {World}

  -- The flow has not left the loop, and has no word left to read.
  abbrev GoesOn : Flow (List Bytes × World) → Type 0
  GoesOn (next (words, w)) = words ≡ []
  GoesOn (leave (words, w)) = ⊥
  GoesOn _ = Unit

  transferred-GoesOn : (f : Flow (Option Bytes × World)) → GoesOn (transferred h fuel [] f)
  transferred-GoesOn (next (res, w)) = refl
  transferred-GoesOn (leave (res, w)) = refl
  transferred-GoesOn (raised (res, w)) = tt
  transferred-GoesOn Flow.undefined = tt
  transferred-GoesOn out_of_fuel = tt

  asked-GoesOn : (r : Option (Bytes × World)) → GoesOn (asked h fuel [] r)
  asked-GoesOn none = tt
  asked-GoesOn (some (reply, w)) = refl

  perform-GoesOn :
      (c : Choice) (sock : SocketHandle) (w : World)
      → c ≢ Choice.bye
      → GoesOn (perform h fuel c sock [] w)
  unfolding perform next_word
  perform-GoesOn Choice.bye sock w ne = ne refl
  perform-GoesOn Choice.ls sock w ne = transferred-GoesOn _
  perform-GoesOn Choice.pwd sock w ne = asked-GoesOn _
  perform-GoesOn Choice.help sock w ne = refl
  perform-GoesOn Choice.get sock w ne = transferred-GoesOn _
  perform-GoesOn Choice.put sock w ne = transferred-GoesOn _
  perform-GoesOn Choice.cd sock w ne = asked-GoesOn _
  perform-GoesOn Choice.mkdir sock w ne = asked-GoesOn _
  perform-GoesOn Choice.rmdir sock w ne = asked-GoesOn _
  perform-GoesOn Choice.delete sock w ne = asked-GoesOn _
  perform-GoesOn Choice.rename sock w ne = asked-GoesOn _
  perform-GoesOn Choice.unknown sock w ne = refl

  -- The loop has not ended: neither by a command nor by the end of the words.
  abbrev pub NeverEnds : Flow (Keyboard × World) → Type 0
  NeverEnds (next s) = ⊥
  NeverEnds (leave s) = ⊥
  NeverEnds _ = Unit

  carry_on-NeverEnds :
      (go_on : Keyboard → World → Flow (Keyboard × World)) (input : Bytes)
      (f : Flow (List Bytes × World))
      → GoesOn f
      → ((w : World) → NeverEnds (go_on (record { words = []; input = input }) w))
      → NeverEnds (carry_on h fuel go_on (with_input h fuel input f))
  carry_on-NeverEnds go_on input (next (words, w)) g again =
      subst (λ ws. NeverEnds (go_on (record { words = ws; input = input }) w)) (sym g) (again w)
  carry_on-NeverEnds go_on input (leave s) g again = g
  carry_on-NeverEnds go_on input (raised s) g again = tt
  carry_on-NeverEnds go_on input Flow.undefined g again = tt
  carry_on-NeverEnds go_on input out_of_fuel g again = tt

  -- When the keyboard has no word left, the loop carries out the last command again and again: unless
  -- that command is one of those that leave, no number of turns ends the loop, short of an exception or
  -- of a transfer that does not end.
  pub command_loop-NeverEnds :
      (turns : ℕ) (sock : SocketHandle) (input : Bytes) (w : World)
      → choice_of (map to_lower input) ≢ Choice.bye
      → NeverEnds (command_loop h fuel turns sock (record { words = []; input = input }) w)
  unfolding command_loop keyboard_turn next_word
  command_loop-NeverEnds zero sock input w ne = tt
  command_loop-NeverEnds (suc turns) sock input w ne =
      carry_on-NeverEnds (command_loop h fuel turns sock) (map to_lower input)
        (perform h fuel (choice_of (map to_lower input)) sock [] w)
        (perform-GoesOn (choice_of (map to_lower input)) sock w ne)
        (λ v.
          command_loop-NeverEnds turns sock (map to_lower input) v
            (λ e. ne (ap choice_of (sym (map-to_lower input)) ∙ e)))
