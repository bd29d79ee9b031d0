-- ===== src/Lib.antt =====
-- DAQ (Device Automated Qualification): verification of the Python core under daq/.
--
-- The runner (daq/runner.py) owns the event loop. It keeps the devices that the switches have seen
-- (Devices), gives each a gateway (BaseGateway and its subclasses, which serve addresses and hold the
-- test hosts) and runs the tests of a device through a ConnectedHost. The files here follow these parts:
--
-- Base: what the modules share. Base/Action models a Python method as a function from the state of
-- its object to a result and a state: what is written before an exception stays written.
-- Base/Action/Preserves has the rules for invariants of such methods, Base/Dict and Base/Lists
-- model dicts and sets, and Base/FirstFree the loop that looks for a free number.
-- Devices (daq/runner.py: PortInfo, IpInfo, Device, Devices): the container of devices over a heap of
-- objects, since several variables name one device. A function here has the name of the method.
-- Gateway (daq/base_gateway.py, daq/container_gateway.py, daq/external_gateway.py): test ports,
-- targets, start and termination of a gateway.
-- Host (daq/host.py): Machine has the state and the helpers of ConnectedHost, Steps its methods in the
-- order of a run, Running the sequences of callbacks; Settings has the
-- configuration of a device, over the files of Config.
-- Runner (daq/runner.py, DAQRunner): State has the state, in which gateways and hosts are objects on a
-- heap whose methods are the definitions of Gateway and Host; Pool the gateway sets, Targets the life of
-- a target set, Ports the events of the switches, Activation the way from an address to the activation
-- of a group, Idle the idle round of the event loop,
-- Loop the switch events, the sessions and the main loop, in which an exception of a callback of the event
-- loop goes to the error handler of its stream (daq/stream_monitor.py) and the loop goes on, TestList the
-- files that list the tests; Results the outcome of a device and of the run.
-- Topology (daq/topology.py): ports and vlans of the gateway sets and the direction of traffic. Rules and
-- MainRules have the access rules of the primary switch, Templates and PortRules those of the ports of the
-- secondary switch, Interfaces the interfaces of both.
-- Modules (daq/test_modules): IpAddr the address tests, External a test that runs in a host of its own.
-- Report (daq/report.py): the results of a device and the overall result of a category.
-- Combine (bin/python/combine_reports.py): the numbers of results over several reports.
-- Events (daq/faucet_event_client.py): Lines is the buffer of lines that come in on a socket, Handling the
-- debouncing of ports and the rounds of next_event; Buffer and Debounce specify them.
-- Dot1x (subset/dot1x/authenticator): the authenticator of the 802.1X test, its state machines (Machine)
-- and its network modules (Modules).
-- Sessions (daq/session_server.py): the sessions of remote devices, their queues and heartbeats.
-- Streams (daq/stream_monitor.py): the table of watched descriptors and the event loop.
-- Config (daq/configurator.py): Tree and Merge have configurations as dicts within a dict, Flat the lines of a
-- configuration file, Files the files that include each other, Args the command line.
-- Generator (daq/generator.py): Site has the site, the setup and the switches that are made of them, Uniform the
-- rules of the device ports, Output the files of a run, Flatten the includes of one configuration.
-- Counts (daq/acl_state_collector.py, daq/traffic_analyzer.py): the packet counts of the access rules and
-- the placement of devices.
-- Dhcp (daq/dhcp_monitor.py): the lines of a DHCP exchange and the report of a lease.
--
-- Bounds: `while n in taken` loops run on as many rounds as numbers are taken, which Base/FirstFree
-- shows to be enough; the warmup pings run on the retry count of the source. `merge_config` runs on as many rounds as
-- there are files, and one more, which Config/Includes shows to be enough, and `_parse_flat_item` on the length
-- of the key (Config/Rounds). `list_file` runs on a bound on the depth of the includes of test lists, which the
-- code does not check. Other loops recurse on a list.
--
-- Not modelled: the program's entry, packet formats, files, logs,
-- timers, network commands and cloud calls. What the code
-- reads from them (the answer to a ping, whether a module starts, whether a time is over) is an argument
-- of the definition (for the runner the record Surroundings), so that a theorem speaks of every answer.
-- The runner handles queued switch events while it ends a target in single shot mode; this call back into
-- the runner is the parameter `drain`, which Runner/Loop fills with the handling of switch events to any depth.
-- What a host asks of the
-- runner is noted in a list of calls. A Python set is a list in an arbitrary
-- order, so that `pop` takes its first element.
mod Base
pub mod Config
pub mod Counts
pub mod Generator
pub mod Devices
pub mod Gateway
pub mod Host
pub mod Runner
pub mod Dhcp
pub mod Dot1x
pub mod Events
pub mod Sessions
pub mod Streams
pub mod Topology
pub mod Modules
pub mod Report
pub mod Combine
