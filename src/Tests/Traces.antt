-- ===== src/Tests/Traces.antt =====
-- Traces and the start of a worker at concrete inputs.
use temporal_cpp.Prelude.{refl, String, true, false, none, some, [], ◌∷◌, empty, to_string}
use temporal_cpp.Prelude.Int.{pos, negsuc}
use temporal_cpp.Interceptors.Tracing.{
  ObjectText, StartSpanOptions, new_tracer, start_span, start_and_inject, start_inbound,
  client_call, traced_activity,
}
use temporal_cpp.Interceptors.Tracing.Connected.{IsChild, start_inbound-connected}
use temporal_cpp.Interceptors.Tracing.Ends.{HasEnd, throws, client_call-left_open}
use temporal_cpp.Worker.{new_scaler}
use temporal_cpp.Worker.Start.{StartOptions, Registered, Pollers, start}
use temporal_cpp.Worker.Start.Pools.{Agree, start-Agree}
use temporal_cpp.Tests.{info}
use temporal_cpp.Tests.Machines.{reporting_task}

-- A text that stands for one object.
abbrev one_object : ObjectText
one_object = record {
  dump = λ fields. 1 ∷ [];
  parse = λ bytes. some (("span_id", "s1") ∷ ("trace_id", "t1") ∷ []);
}

abbrev order_run : StartSpanOptions
order_run = record { operation = "RunWorkflow"; name = "Order"; parent = none; tags = empty }

start_inbound-connected_example :
    let running = (start_span order_run new_tracer).0 in
    let call =
      start_and_inject one_object "_tracer-data" info "StartActivity" "Report"
        (some running.context)
        empty
        new_tracer in
    let received =
      start_inbound one_object "_tracer-data" "RunActivity" "Report" empty call.1.0 new_tracer in
    IsChild running call.0 call.1.1 × IsChild call.0 received.0 received.1
unfolding start_and_inject start_span new_tracer to_string
start_inbound-connected_example =
    start_inbound-connected one_object "_tracer-data" order_run info "StartActivity" "Report"
      "RunActivity" "Report" empty empty new_tracer new_tracer new_tracer refl

client_call-left_open_example :
    HasEnd 0 false false
      (client_call one_object "_tracer-data" "StartWorkflow" "Order" "order-7"
        (λ h. throws {R = String})
        empty
        new_tracer).1
    × HasEnd 0 true true
        (traced_activity one_object "_tracer-data" reporting_task.info
          (throws {R = String})
          empty
          new_tracer).1
unfolding new_tracer
client_call-left_open_example =
    client_call-left_open one_object "_tracer-data" "StartWorkflow" "Order" "order-7"
      reporting_task.info empty new_tracer

-- Four loops for each queue, one of which stays; a negative number of activity pollers.
abbrev elastic : StartOptions
elastic = record {
  workflow_task_pollers = pos 2;
  activity_task_pollers = negsuc 0;
  enable_poller_autoscaling = true;
  min_concurrent_pollers = pos 1;
  max_concurrent_pollers = pos 4;
  autoscaling_idle_polls_before_park = 5;
  enable_sessions = true;
}

abbrev everything : Registered
everything = record { has_workflows = true; has_activities = true; has_operations = true }

abbrev idle_worker : Pollers
idle_worker = record {
  started = false;
  wf_scaler = new_scaler;
  act_scaler = new_scaler;
  threads = [];
}

start-Agree_example : Agree elastic (start elastic everything idle_worker)
start-Agree_example = start-Agree elastic everything idle_worker refl refl refl
